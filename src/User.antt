-- ===== src/User.antt =====
-- src/common/user.c over the password database, and UID_ALLOWED of src/rs-serve.h.
-- A uid_t is an unsigned number of 32 bits.
use rs_serve.Base.{ℕ, ◌^◌, ◌-◌, Bool, Option, none, some, Bytes, leb}
use rs_serve.Config.{min_uid}

-- struct passwd, as far as it is read
pub record Passwd : Type 0 where
  pub uid : ℕ
  pub gid : ℕ

-- user_get_entry returns an entry, USER_NOT_FOUND (the pointer -1), or NULL after an error.
pub data Entry : Type 0 where
  entry : Passwd → Entry
  user_not_found : Entry
  error : Entry

-- What getpwnam_r gives: 0 with an entry, 0 with a NULL result, or the number of an error.
pub data Getpwnam : Type 0 where
  found : Passwd → Getpwnam
  missing failing : Getpwnam

-- The database of users is a function of the environment.
abbrev pub Users : Type 0
Users = Bytes → Getpwnam

abbrev pub entry_of : Getpwnam → Entry
entry_of (found p) = entry p
entry_of missing = user_not_found
entry_of failing = error

-- `none` is a NULL name.
unfoldable pub user_get_entry : Users → Option Bytes → Entry
user_get_entry users none = user_not_found
user_get_entry users (some username) = entry_of (users username)

-- (uid_t)-1 and (uid_t)-2
abbrev pub uid_not_found : ℕ
uid_not_found = 2 ^ 32 - 1

abbrev pub uid_error : ℕ
uid_error = 2 ^ 32 - 2

unfoldable pub entry_uid : Entry → ℕ
entry_uid (entry p) = p.uid
entry_uid user_not_found = uid_not_found
entry_uid error = uid_error

unfoldable pub user_get_uid : Users → Option Bytes → ℕ
unfolding entry_uid user_get_entry
user_get_uid users username = entry_uid (user_get_entry users username)

-- UID_ALLOWED: the comparison is unsigned.
abbrev pub uid_allowed : ℕ → Bool
uid_allowed uid = leb min_uid uid
