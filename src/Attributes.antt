-- ===== src/Attributes.antt =====
-- src/common/attributes.c: content type and ETag in extended attributes.
pub mod Buffer
use rs_serve.Base.{
  ℕ, zero, suc, ◌+◌, ◌*◌, ◌/◌, ◌%◌, Bool, true, false, ◌||◌, Option, none, some, List, [], ◌∷◌,
  ◌++◌, ◌==◌, ltb, leb, Bytes, codes, length, if◌then◌else◌,
}
use rs_serve.CString.{str_eq, strstr}
use rs_serve.Posix.{Posix, Errno, erange, Stat, Call, returned, failed}

-- What get_xattr returns: a text, or NULL. The flag is set if it wrote the NUL behind its buffer.
pub record Read : Type 0 where
  pub text : Option Bytes
  pub overran : Bool

abbrev pub null_read : Read
null_read = record { text = none; overran = false }

-- Memory as a C string: up to the first NUL.
unfoldable pub c_string : Bytes → Bytes
c_string [] = []
c_string (c ∷ s) = if c == 0 then [] else c ∷ c_string s

-- getxattr(2) into a buffer of `len` bytes.
unfoldable pub getxattr : Call Bytes → ℕ → Call Bytes
getxattr (returned v) len = if ltb len (length v) then failed erange else returned v
getxattr (failed e) len = failed e

abbrev is_erange : Errno → Bool
is_erange erange = true
is_erange _ = false

-- One round of the loop of get_xattr, from the reply to a buffer of `len` bytes. `errno` is what it
-- was before: a length of 0 is taken for an error, but does not set it. `again` is the next round.
unfoldable pub xattr_round : Call Bytes → ℕ → Errno → (Errno → Read) → Read
xattr_round (returned []) len errno again = if is_erange errno then again errno else null_read
xattr_round (returned (c ∷ v)) len errno again = record {
  text = some (c_string (c ∷ v));
  overran = length (c ∷ v) == len;
}
xattr_round (failed e) len errno again = if is_erange e then again e else null_read

-- The loop: buffers of `len`, `len + 16`, … bytes while these are at most `maxlen`.
unfoldable pub xattr_loop : ℕ → ℕ → Call Bytes → ℕ → Errno → Read
unfolding xattr_round getxattr
xattr_loop zero maxlen attribute len errno = null_read
xattr_loop (suc fuel) maxlen attribute len errno =
    let round =
      xattr_round (getxattr attribute len) len errno
        (λ e. xattr_loop fuel maxlen attribute (len + 16) e) in
    if leb len maxlen then round else null_read

-- A buffer grows by 16 bytes in each round, so `maxlen` rounds are enough.
unfoldable pub get_xattr : Call Bytes → ℕ → Errno → Read
unfolding xattr_loop
get_xattr attribute maxlen errno = xattr_loop maxlen maxlen attribute 32 errno
