-- ===== src/Auth/Codec/RoundTrip.antt =====
-- pack_authorization and unpack_authorization of src/common/auth.c, against the layout of a record.
use rs_serve.Base.{
  ℕ, ◌+◌, ◌^◌, ◌<◌, ◌≡◌, refl, sym, ◌∙◌, some, List, [], ◌∷◌, ◌++◌, arith, Bytes, length,
  length-append, append_assoc, All, append-nil, ==_refl, ltb, leb, ltb_iff, Bool-cases, true, false,
  inl, inr, ap, Option, none, if◌then◌else◌,
}
use rs_serve.Auth.{Scope, Authorization, IsCString, IsScope, IsAuthorization}
use rs_serve.Auth.Codec.{
  u32, le32, add_scope_sizes, packed_size, Cursor, put_bytes, put_string, put_scopes, packed_cursor,
  pack_authorization, read_string, unpacked, read_u32, read_scopes, unpack_authorization,
}

-- The layout, with no cursor: each piece stands in front of what follows it.
abbrev pub scope_bytes : List Scope → Bytes → Bytes
scope_bytes [] rest = rest
scope_bytes (s ∷ scopes) rest = s.name ++ (0 ∷ s.write ∷ scope_bytes scopes rest)

abbrev pub layout : Authorization → Bytes → Bytes
layout a rest =
    a.username ++ (0 ∷ (a.token ++ (0 ∷ (le32 (length a.scopes) ++ scope_bytes a.scopes rest))))

-- The cursor behind these bytes, in a buffer of `size` bytes.
abbrev behind : ℕ → Bytes → Option Cursor
behind size w =
    if leb (length w) size then some (record { written = w; offset = length w }) else none

put_bytes-behind :
    (size : ℕ) (w bytes : Bytes)
    → size < 2 ^ 32
    → put_bytes size (behind size w) bytes ≡ behind size (w ++ bytes)
unfolding put_bytes
put_bytes-behind size w bytes h =
    let total = length-append w bytes in
    elim (Bool-cases (leb (length w) size)) [
      | inr e ↦
          let e' : leb (length (w ++ bytes)) size ≡ false = ground (arith, total, e) in
          rw (e, e') refl
      | inl e ↦ elim (Bool-cases (ltb size (length w + length bytes))) [
        | inl f ↦
            let f' : leb (length (w ++ bytes)) size ≡ false = ground (arith, total, f) in
            rw (e, f, f') refl
        | inr f ↦
            let f' : leb (length (w ++ bytes)) size ≡ true = ground (arith, total, f) in
            let at_end : u32 (length w + length bytes) ≡ length (w ++ bytes) =
              ground (arith, total, f, h) in
            rw (e, f, f', at_end) refl
      ]
    ]

put_scopes-behind :
    (size : ℕ) (w : Bytes) (scopes : List Scope)
    → size < 2 ^ 32
    → put_scopes size (behind size w) scopes ≡ behind size (w ++ scope_bytes scopes [])
unfolding put_scopes put_string
put_scopes-behind size w [] h = ap (behind size) (sym (append-nil w))
put_scopes-behind size w (s ∷ scopes) h =
    let named = w ++ (s.name ++ (0 ∷ [])) in
    rw
      (
        put_bytes-behind size w (s.name ++ (0 ∷ [])) h,
        put_bytes-behind size named (s.write ∷ []) h,
        put_scopes-behind size (named ++ (s.write ∷ [])) scopes h,
      )
      (ap (behind size) (simp append_assoc))

start-behind : (size : ℕ) → some (record { written = []; offset = 0 }) ≡ behind size []
start-behind size = let fits : leb 0 size ≡ true = ground arith in rw fits refl

packed_cursor-behind :
    (size : ℕ) (a : Authorization)
    → size < 2 ^ 32
    → packed_cursor size a ≡ behind size (layout a [])
unfolding packed_cursor put_string
packed_cursor-behind size a h =
    let user = a.username ++ (0 ∷ []) in
    let strings = user ++ (a.token ++ (0 ∷ [])) in
    let first =
      ap (λ c. put_bytes size c user) (start-behind size) ∙ put_bytes-behind size [] user h in
    rw
      (
        first,
        put_bytes-behind size user (a.token ++ (0 ∷ [])) h,
        put_bytes-behind size strings (le32 (length a.scopes)) h,
        put_scopes-behind size (strings ++ le32 (length a.scopes)) a.scopes h,
      )
      (ap (behind size) (simp append_assoc))

read_string-append : (s rest : Bytes) → IsCString s → read_string (s ++ (0 ∷ rest)) ≡ some (s, rest)
unfolding read_string
read_string-append [] rest h = refl
read_string-append (c ∷ s) rest h = ground (arith, read_string-append s rest h.1)

read_u32-le32 : (n : ℕ) (rest : Bytes) → n < 2 ^ 32 → read_u32 (le32 n ++ rest) ≡ unpacked (n, rest)
unfolding read_u32 le32
read_u32-le32 n rest h = ground arith

read_scopes-layout :
    (scopes : List Scope) (rest : Bytes)
    → All IsScope scopes
    → read_scopes (length scopes) (scope_bytes scopes rest) ≡ unpacked scopes
unfolding read_scopes
read_scopes-layout [] rest h = refl
read_scopes-layout (s ∷ scopes) rest h = ground (
  arith,
  read_string-append s.name (s.write ∷ scope_bytes scopes rest) h.0.name_text,
  read_scopes-layout scopes rest h.1,
)

pub unpack-layout :
    (a : Authorization) (rest : Bytes)
    → IsAuthorization a
    → unpack_authorization (layout a rest) ≡ unpacked a
unfolding unpack_authorization
unpack-layout a rest h = rw (
  read_string-append a.username _ h.username_text,
  read_string-append a.token _ h.token_text,
  read_u32-le32 (length a.scopes) (scope_bytes a.scopes rest) h.count_fits,
  read_scopes-layout a.scopes rest h.scopes_valid,
)

add_scope_sizes-length :
    (size : ℕ) (scopes : List Scope)
    → size < 2 ^ 32
    → add_scope_sizes size scopes ≡ u32 (size + length (scope_bytes scopes []))
unfolding add_scope_sizes
add_scope_sizes-length size [] h = omega arith
add_scope_sizes-length size (s ∷ scopes) h =
    let l = length-append s.name (0 ∷ s.write ∷ scope_bytes scopes []) in
    add_scope_sizes-length (u32 (size + (length s.name + 2))) scopes (omega arith)
    ∙ omega (arith, l)

pub length-layout :
    (a : Authorization)
    → length (layout a [])
      ≡ length a.username + 1 + length a.token + 1 + 4 + length (scope_bytes a.scopes [])
unfolding le32
length-layout a =
    let behind_token = le32 (length a.scopes) ++ scope_bytes a.scopes [] in
    omega (
      arith,
      length-append a.username (0 ∷ (a.token ++ (0 ∷ behind_token))),
      length-append a.token (0 ∷ behind_token),
    )

-- The size is the length of the layout, as far as a uint32_t can count.
pub packed_size-length : (a : Authorization) → packed_size a ≡ u32 (length (layout a []))
unfolding packed_size
packed_size-length a =
    let strings = length a.username + 1 + length a.token + 1 in
    let total = length-layout a in
    let sizes = add_scope_sizes-length (u32 strings) a.scopes (omega arith) in
    rw sizes (omega (arith, total))

pub pack_authorization-if :
    (a : Authorization)
    → pack_authorization a ≡ (
        if ltb (length (layout a [])) (2 ^ 32)
        then some (record { bytes = layout a []; size = length (layout a []) })
        else none)
unfolding pack_authorization
pack_authorization-if a =
    let size = packed_size-length a in
    let total = length (layout a []) in
    elim (Bool-cases (ltb total (2 ^ 32))) [
      | inl e ↦
          let small = (ltb_iff total (2 ^ 32)).0 e in
          let same : packed_size a ≡ total = size ∙ omega (arith, small) in
          let fits : leb total total ≡ true = ground arith in
          rw (same, packed_cursor-behind total a small, fits, e, ==_refl total) refl
      | inr e ↦
          let short : leb total (packed_size a) ≡ false = ground (arith, size, e) in
          let bounded : packed_size a < 2 ^ 32 = omega (arith, size) in
          rw (packed_cursor-behind (packed_size a) a bounded, short, e) refl
    ]

pub pack_authorization-small :
    (a : Authorization)
    → length (layout a []) < 2 ^ 32
    → pack_authorization a ≡ some (record { bytes = layout a []; size = length (layout a []) })
pack_authorization-small a h = rw (pack_authorization-if a, (ltb_iff _ _).1 h) refl
