-- ===== src/Auth/Codec.antt =====
-- `pack_authorization`, `read_string` and `unpack_authorization` of src/common/auth.c.
-- A uint32_t is kept modulo 2 ^ 32, and stored with its low byte first. Allocation succeeds.
pub mod RoundTrip
pub mod Sound
use rs_serve.Base.{
  ℕ, zero, suc, ◌+◌, ◌*◌, ◌/◌, ◌%◌, ◌^◌, Option, none, some, List, [], ◌∷◌, ◌++◌, ◌==◌,
  if◌then◌else◌, Bytes, length, ltb,
}
use rs_serve.Auth.{Scope, Authorization}

abbrev pub u32 : ℕ → ℕ
u32 n = n % 2 ^ 32

unfoldable pub le32 : ℕ → Bytes
le32 n = (n % 256) ∷ (n / 256 % 256) ∷ (n / 65536 % 256) ∷ (n / 16777216 % 256) ∷ []

-- The size that is allocated: the loop over the scopes, after the two strings.
unfoldable pub add_scope_sizes : ℕ → List Scope → ℕ
add_scope_sizes size [] = size
add_scope_sizes size (s ∷ scopes) = add_scope_sizes (u32 (size + (length s.name + 2))) scopes

unfoldable pub packed_size : Authorization → ℕ
unfolding add_scope_sizes
packed_size a =
    u32 (add_scope_sizes (u32 (length a.username + 1 + length a.token + 1)) a.scopes + 4)

-- Where `pack_authorization` writes: the bytes so far and `offset`.
pub record Cursor : Type 0 where
  pub written : Bytes
  pub offset : ℕ

-- A `memcpy` to `dest->data + offset`, a buffer of `size` bytes, and the step of `offset` behind it;
-- `none` once a write has gone past the end of the buffer.
unfoldable pub put_bytes : ℕ → Option Cursor → Bytes → Option Cursor
put_bytes size none bytes = none
put_bytes size (some c) bytes =
    if ltb size (c.offset + length bytes)
    then none
    else some (record { written = c.written ++ bytes; offset = u32 (c.offset + length bytes) })

-- A string goes with its NUL.
unfoldable pub put_string : ℕ → Option Cursor → Bytes → Option Cursor
unfolding put_bytes
put_string size c s = put_bytes size c (s ++ (0 ∷ []))

unfoldable pub put_scopes : ℕ → Option Cursor → List Scope → Option Cursor
unfolding put_string put_bytes
put_scopes size c [] = c
put_scopes size c (s ∷ scopes) =
    put_scopes size (put_bytes size (put_string size c s.name) (s.write ∷ [])) scopes

-- The value handed to the database: `data`, `size` and `ulen`.
pub record Packed : Type 0 where
  pub bytes : Bytes
  pub size : ℕ

-- The cursor behind the last `memcpy`.
unfoldable pub packed_cursor : ℕ → Authorization → Option Cursor
unfolding put_scopes put_string put_bytes le32
packed_cursor size a =
    let start : Option Cursor = some (record { written = []; offset = 0 }) in
    let strings = put_string size (put_string size start a.username) a.token in
    put_scopes size (put_bytes size strings (le32 (length a.scopes))) a.scopes

-- assert(offset == size)
abbrev pub checked_end : ℕ → Option Cursor → Option Packed
checked_end size none = none
checked_end size (some end) =
    if end.offset == size then some (record { bytes = end.written; size = size }) else none

-- `none` is a write past the end of the buffer, or the failure of the assert.
unfoldable pub pack_authorization : Authorization → Option Packed
unfolding packed_cursor packed_size
pack_authorization a = checked_end (packed_size a) (packed_cursor (packed_size a) a)

abbrev onto_string : ℕ → Option (Bytes × Bytes) → Option (Bytes × Bytes)
onto_string c none = none
onto_string c (some (s, rest)) = some (c ∷ s, rest)

-- `read_string` on what is left behind `offset`: the string and what follows its NUL. `none` is
-- NULL: no NUL up to the end, where `offset` then stands.
unfoldable pub read_string : Bytes → Option (Bytes × Bytes)
read_string [] = none
read_string (c ∷ cs) = if c == 0 then some ([], cs) else onto_string c (read_string cs)

-- `unpack_authorization` succeeds, returns 1, or reads past the end of the data.
pub data Unpacked {ℓ} (A : Type ℓ) : Type ℓ where
  unpacked : A → Unpacked A
  missing : Unpacked A
  overrun : Unpacked A

unfoldable pub read_u32 : Bytes → Unpacked (ℕ × Bytes)
read_u32 (a ∷ b ∷ c ∷ d ∷ rest) = unpacked (a + 256 * b + 65536 * c + 16777216 * d, rest)
read_u32 _ = overrun

-- The flag that follows a scope's name.
unfoldable pub read_flag : Bytes → Bytes → Unpacked (Scope × Bytes)
read_flag name [] = overrun
read_flag name (w ∷ rest) = unpacked (record { name = name; write = w }, rest)

-- Behind a NULL name `offset` is at the end, so the flag is read past it.
unfoldable pub read_scope : Bytes → Unpacked (Scope × Bytes)
unfolding read_string read_flag
read_scope rest = elim (read_string rest) [
  | none ↦ overrun
  | some (name, more) ↦ read_flag name more
]

infixl 5 ◌>>=◌
abbrev pub ◌>>=◌ {ℓ κ} : {A : Type ℓ} {B : Type κ} → Unpacked A → (A → Unpacked B) → Unpacked B
unpacked a >>= f = f a
missing >>= f = missing
overrun >>= f = overrun

unfoldable pub read_scopes : ℕ → Bytes → Unpacked (List Scope)
unfolding read_scope
read_scopes zero rest = unpacked []
read_scopes (suc n) rest = do
  (s, more) ← read_scope rest
  scopes ← read_scopes n more
  unpacked (s ∷ scopes)

abbrev or_missing {ℓ} : {A : Type ℓ} → Option A → Unpacked A
or_missing none = missing
or_missing (some a) = unpacked a

unfoldable pub unpack_authorization : Bytes → Unpacked Authorization
unfolding read_string read_u32 read_scopes
unpack_authorization bytes = do
  (username, behind_username) ← or_missing (read_string bytes)
  (token, behind_token) ← or_missing (read_string behind_username)
  (count, rest) ← read_u32 behind_token
  scopes ← read_scopes count rest
  unpacked (record { username = username; token = token; scopes = scopes })
