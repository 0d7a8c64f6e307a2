-- ===== src/Attributes/Buffer.antt =====
-- Which attributes get_xattr reads.
use rs_serve.Base.{
  ℕ, zero, suc, ◌+◌, ◌*◌, ◌≤◌, ◌<◌, ◌≡◌, refl, ap, some, [], ◌∷◌, arith, Bytes, length, ◌≢◌, false,
  if◌then◌else◌, true, leb,
}
use mathlib.Core.Path.{fun_ext}
use rs_serve.Posix.{Errno, Call, returned, erange}
use rs_serve.Attributes.{null_read, c_string, getxattr, xattr_round, xattr_loop, get_xattr}

-- From a buffer of `len` bytes the value is read if it fits into one of the buffers up to `maxlen`.
xattr_loop-fits :
    (k fuel maxlen len : ℕ) (v : Bytes) (errno : Errno)
    → 0 < length v
    → length v ≤ len + 16 * k
    → len + 16 * k ≤ maxlen
    → k < fuel
    → (xattr_loop fuel maxlen (returned v) len errno).text ≡ some (c_string v)
unfolding xattr_loop
xattr_loop-fits k zero maxlen len v errno p fits room f = absurd (omega arith)
xattr_loop-fits k (suc fuel) maxlen len [] errno p fits room f = absurd (omega arith)
xattr_loop-fits zero (suc fuel) maxlen len (c ∷ v) errno p fits room f = ground arith
xattr_loop-fits (suc k) (suc fuel) maxlen len (c ∷ v) errno p fits room f =
    ground (arith, xattr_loop-fits k fuel maxlen (len + 16) (c ∷ v) erange p)

-- A value that fits into none is never read.
xattr_loop-too_long :
    (fuel maxlen len : ℕ) (v : Bytes) (errno : Errno)
    → maxlen < length v
    → xattr_loop fuel maxlen (returned v) len errno ≡ null_read
unfolding xattr_loop
xattr_loop-too_long zero maxlen len v errno h = refl
xattr_loop-too_long (suc fuel) maxlen len v errno h =
    ground (arith, xattr_loop-too_long fuel maxlen (len + 16) v erange)

-- A value that fills none of the buffers leaves room for the NUL.
xattr_loop-not_full :
    (fuel maxlen len : ℕ) (v : Bytes) (errno : Errno)
    → ((j : ℕ) → length v ≢ len + 16 * j)
    → (xattr_loop fuel maxlen (returned v) len errno).overran ≡ false
unfolding xattr_loop
xattr_loop-not_full zero maxlen len v errno h = refl
xattr_loop-not_full (suc fuel) maxlen len [] errno h =
    ground
      (arith, xattr_loop-not_full fuel maxlen (len + 16) [] errno (λ j e. h (suc j) (omega arith)))
xattr_loop-not_full (suc fuel) maxlen len (c ∷ v) errno h =
    let first = h 0 in
    ground (
      arith,
      first,
      xattr_loop-not_full fuel maxlen (len + 16) (c ∷ v) erange (λ j e. h (suc j) (omega arith)),
    )

pub get_xattr-not_full :
    (maxlen : ℕ) (v : Bytes) (errno : Errno)
    → ((j : ℕ) → length v ≢ 32 + 16 * j)
    → (get_xattr (returned v) maxlen errno).overran ≡ false
unfolding get_xattr
get_xattr-not_full maxlen v errno h = xattr_loop-not_full maxlen maxlen 32 v errno h

-- Enough fuel is as good as more.
xattr_loop-fuel :
    (fuel more maxlen : ℕ) (attribute : Call Bytes) (len : ℕ) (errno : Errno)
    → maxlen < len + 16 * fuel
    → fuel ≤ more
    → xattr_loop more maxlen attribute len errno ≡ xattr_loop fuel maxlen attribute len errno
unfolding xattr_loop
xattr_loop-fuel zero zero maxlen a len errno h le = refl
xattr_loop-fuel zero (suc more) maxlen a len errno h le = ground arith
xattr_loop-fuel (suc fuel) zero maxlen a len errno h le = absurd (omega arith)
xattr_loop-fuel (suc fuel) (suc more) maxlen a len errno h le =
    let step =
      fun_ext λ e. xattr_loop-fuel fuel more maxlen a (len + 16) e (omega arith) (omega arith) in
    ap (λ again. if leb len maxlen then xattr_round (getxattr a len) len errno again else null_read)
      step

-- With any fuel from `maxlen` on the loop of get_xattr gives the result of get_xattr: it ends by its
-- test, never for lack of fuel.
pub get_xattr-fuel :
    (more maxlen : ℕ) (attribute : Call Bytes) (errno : Errno)
    → maxlen ≤ more
    → xattr_loop more maxlen attribute 32 errno ≡ get_xattr attribute maxlen errno
unfolding get_xattr
get_xattr-fuel more maxlen a errno h = xattr_loop-fuel maxlen more maxlen a 32 errno (omega arith) h

-- A value that is not empty and fits one of the buffers of 32, 48, … bytes that `maxlen` admits is read
-- up to its first NUL.
pub get_xattr-reads :
    (k maxlen : ℕ) (v : Bytes) (errno : Errno)
    → 0 < length v
    → length v ≤ 32 + 16 * k
    → 32 + 16 * k ≤ maxlen
    → (get_xattr (returned v) maxlen errno).text ≡ some (c_string v)
unfolding get_xattr
get_xattr-reads k maxlen v errno p fits room =
    xattr_loop-fits k maxlen maxlen 32 v errno p fits room (omega arith)

-- A value of more than 32 bytes is not read with `maxlen` 41, with which get_etag asks for the 40 bytes
-- that it stores.
pub get_xattr-loses_etag :
    (v : Bytes) (errno : Errno) → 32 < length v → get_xattr (returned v) 41 errno ≡ null_read
unfolding get_xattr
get_xattr-loses_etag v errno h = ground arith

-- A value of 32 bytes, which fills the first buffer, makes get_xattr write its NUL one byte behind it.
pub get_xattr-overruns :
    (v : Bytes) (maxlen : ℕ) (errno : Errno)
    → length v ≡ 32
    → 32 ≤ maxlen
    → (get_xattr (returned v) maxlen errno).overran ≡ true
unfolding get_xattr
get_xattr-overruns [] maxlen errno e h = absurd (omega arith)
get_xattr-overruns (c ∷ v) zero errno e h = absurd (omega arith)
get_xattr-overruns (c ∷ v) (suc maxlen) errno e h = ground arith
