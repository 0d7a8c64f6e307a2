-- ===== src/Auth/Store.antt =====
-- The operations of src/common/auth.c on the database of authorizations. The database is open: the
-- handle `auth_db` is `db`.
pub mod Laws
pub mod Refines
pub mod Commute
use rs_serve.Base.{
  ℕ, ◌≡◌, Option, none, some, List, [], ◌∷◌, ◌++◌, Bytes, Bool, true, false, codes, if◌then◌else◌,
  ◌==◌, take,
}
use rs_serve.CString.{str_eq}
use rs_serve.Auth.{Scope, Authorization}
use rs_serve.Auth.Codec.{
  Packed, pack_authorization, Unpacked, unpacked, missing, overrun, unpack_authorization,
}
use rs_serve.Auth.Database.{Outcome, done, not_found, failed, Database}

-- sprintf(key, "%s|%s", username, token)
unfoldable pub make_key : Bytes → Bytes → Bytes
make_key username token = username ++ (b'|' ∷ token)

-- The `int` that add_authorization and remove_authorization return.
pub data Status : Type 0 where
  success : Status
  -- -1
  error : Status
  -- what the database returned
  database_error : Outcome (Unit {0}) → Status
  -- the process is gone, by abort() or assert(), or has written past a buffer
  aborted : Status

-- What lookup_authorization returns. `garbage` is a record of which unpack_authorization left
-- fields unset, or read past its data: its result is not looked at.
pub data Lookup : Type 0 where
  null : Lookup
  found : Authorization → Lookup
  garbage : Lookup
  aborted : Lookup

unfoldable pub unpack_unchecked : Unpacked Authorization → Lookup
unpack_unchecked (unpacked a) = found a
unpack_unchecked missing = garbage
unpack_unchecked overrun = garbage

unfoldable pub lookup_result : Outcome Bytes → Lookup
unfolding unpack_unchecked
lookup_result (done value) = unpack_unchecked (unpack_authorization value)
lookup_result not_found = null
lookup_result (failed c) = aborted

-- The calls of `cb` that list_authorizations makes. `exits` stands for its exit() and abort().
pub data Listing : Type 0 where
  calls : List Lookup → Listing
  exits : Listing

module _ (D : Database) where
  -- The database reads `size` bytes. The result of `put` is printed and dropped.
  unfoldable pub put_packed : D.Db → Bytes → Option Packed → D.Db × Status
  put_packed db key none = (db, aborted)
  put_packed db key (some value) =
      if value.size == 0
      then (db, error)
      else ((D.put db key (take value.size value.bytes)).0, success)

  unfoldable pub add_authorization : D.Db → Authorization → D.Db × Status
  unfolding put_packed
  add_authorization db a = put_packed db (make_key a.username a.token) (pack_authorization a)

  unfoldable pub status_of : Outcome (Unit {0}) → Status
  status_of (done u) = success
  status_of not_found = database_error not_found
  status_of (failed c) = database_error (failed c)

  unfoldable pub remove_authorization : D.Db → Authorization → D.Db × Status
  unfolding status_of
  remove_authorization db a =
      let (db', result) = D.del db (make_key a.username a.token) in (db', status_of result)

  unfoldable pub lookup_authorization : D.Db → Bytes → Bytes → Lookup
  unfolding lookup_result
  lookup_authorization db username token = lookup_result (D.get db (make_key username token))

-- `username == NULL || strcmp(auth->username, username) == 0`; what strcmp finds in a garbage record is
-- not known, and such a record is kept in the list
unfoldable pub is_listed : Option Bytes → Lookup → Bool
is_listed none l = true
is_listed (some username) (found a) = str_eq a.username username
is_listed (some username) _ = true

unfoldable pub list_values : Option Bytes → List Bytes → List Lookup
unfolding is_listed unpack_unchecked
list_values username [] = []
list_values username (v ∷ values) =
    let l = unpack_unchecked (unpack_authorization v) in
    let rest = list_values username values in if is_listed username l then l ∷ rest else rest

unfoldable pub list_authorizations : (D : Database) → D.Db → Option Bytes → Listing
unfolding list_values
list_authorizations D db username = elim (D.walk db) [
  | done values ↦ calls (list_values username values)
  | not_found ↦ calls []
  | failed c ↦ exits
]
