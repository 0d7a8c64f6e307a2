-- ===== src/Auth/Codec/Sound.antt =====
-- unpack_authorization of src/common/auth.c on any bytes.
use rs_serve.Base.{
  ℕ, zero, suc, ◌^◌, ◌<◌, ◌≡◌, refl, ap, ◌∙◌, inl, inr, Option, none, some, List, [], ◌∷◌, ◌++◌,
  arith, Bytes, length, Option-cases, All,
}
use rs_serve.Auth.{Scope, Authorization, IsCString, IsScope, IsAuthorization}
use rs_serve.Auth.Codec.{
  le32, read_string, Unpacked, unpacked, missing, overrun, read_u32, read_scope, read_scopes,
  unpack_authorization, ◌>>=◌, or_missing,
}
use rs_serve.Auth.Codec.RoundTrip.{scope_bytes, layout}

abbrev pub IsBytes : Bytes → Type 0
IsBytes d = All (λ c. c < 256) d

record ReadString (d s rest : Bytes) : Type 0 where
  splits : d ≡ s ++ (0 ∷ rest)
  text : IsCString s
  more_bytes : IsBytes d → IsBytes rest

read_string_lem : (d s rest : Bytes) → read_string d ≡ some (s, rest) → ReadString d s rest
unfolding read_string
read_string_lem [] s rest e = cc
read_string_lem (c ∷ d) [] rest e = ground arith
read_string_lem (c ∷ d) (x ∷ s) rest e = ground (arith, read_string_lem d s rest)

read_u32_lem :
    (d : Bytes) (n : ℕ) (rest : Bytes)
    → IsBytes d
    → read_u32 d ≡ unpacked (n, rest)
    → (d ≡ le32 n ++ rest) × (n < 2 ^ 32) × IsBytes rest
unfolding read_u32 le32
read_u32_lem (a ∷ b ∷ c ∷ d ∷ more) n rest h e = ground arith
read_u32_lem _ n rest h e = cc

bind-eq-unpacked {ℓ κ} :
    {A : Type ℓ} {B : Type κ} (m : Unpacked A) (f : A → Unpacked B) {b : B}
    → (m >>= f) ≡ unpacked b
    → (a : A) × (m ≡ unpacked a) × (f a ≡ unpacked b)
bind-eq-unpacked (unpacked a) f h = (a, refl, h)
bind-eq-unpacked missing f h = cc
bind-eq-unpacked overrun f h = cc

or_missing-eq_unpacked {ℓ} :
    {A : Type ℓ} (o : Option A) {a : A} → or_missing o ≡ unpacked a → o ≡ some a
or_missing-eq_unpacked none e = cc
or_missing-eq_unpacked (some a) e = ground arith

read_scope_lem :
    (d : Bytes) (s : Scope) (rest : Bytes)
    → IsBytes d
    → read_scope d ≡ unpacked (s, rest)
    → (d ≡ s.name ++ (0 ∷ s.write ∷ rest)) × IsScope s × IsBytes rest
unfolding read_scope
read_scope_lem d s rest h e = elim (Option-cases (read_string d)) [
  | inl n ↦ ground arith
  | inr ((name, []), y) ↦ ground arith
  | inr ((name, w ∷ more), y) ↦
      let r = read_string_lem d name (w ∷ more) y in
      let b = r.more_bytes h in ground (arith, r.splits, r.text, b.0, b.1)
]

read_scopes_lem :
    (n : ℕ) (d : Bytes) (scopes : List Scope)
    → IsBytes d
    → read_scopes n d ≡ unpacked scopes
    → (rest : Bytes) × (d ≡ scope_bytes scopes rest) × (length scopes ≡ n) × All IsScope scopes
unfolding read_scopes
read_scopes_lem zero d [] h e = (d, refl, refl, tt)
read_scopes_lem zero d (s ∷ scopes) h e = cc
read_scopes_lem (suc n) d scopes h e =
    let ((s, more), one, e') =
      bind-eq-unpacked (read_scope d) (λ (s, m). do r ← read_scopes n m; unpacked (s ∷ r)) e in
    let (others, many, e'') = bind-eq-unpacked (read_scopes n more) (λ r. unpacked (s ∷ r)) e' in
    let (at, valid, h') = read_scope_lem d s more h one in
    let (rest, ats, count, valids) = read_scopes_lem n more others h' many in
    let same : s ∷ others ≡ scopes = ground arith in
    rw (← same)
      (rest, at ∙ ap (λ t. s.name ++ (0 ∷ s.write ∷ t)) ats, ap suc count, (valid, valids))

assemble :
    {d d1 d2 d3 username token : Bytes} {scopes : List Scope}
    → ReadString d username d1
    → ReadString d1 token d2
    → (count : ℕ) → count < 2 ^ 32
    → d2 ≡ le32 count ++ d3
    → (rest : Bytes) × (d3 ≡ scope_bytes scopes rest) × (length scopes ≡ count) × All IsScope scopes
    → (rest : Bytes) × (d
        ≡ layout (record { username = username; token = token; scopes = scopes }) rest)
      × IsAuthorization (record { username = username; token = token; scopes = scopes })
assemble r1 r2 count fits at (rest, ats, counted, valids) = (
  rest,
  rw (counted, ← ats, ← at, ← r2.splits) r1.splits,
  record {
    username_text = r1.text;
    token_text = r2.text;
    scopes_valid = valids;
    count_fits = rw counted fits;
  },
)

-- Bytes that unpack are the layout of the authorization that they unpack to, with bytes behind it, and
-- that authorization is well formed.
pub unpack_authorization-layout :
    (d : Bytes) (a : Authorization)
    → IsBytes d
    → unpack_authorization d ≡ unpacked a
    → (rest : Bytes) × (d ≡ layout a rest) × IsAuthorization a
unfolding unpack_authorization
unpack_authorization-layout d a h e =
    let ((username, d1), m1, e1) = bind-eq-unpacked (or_missing (read_string d)) _ e in
    let ((token, d2), m2, e2) = bind-eq-unpacked (or_missing (read_string d1)) _ e1 in
    let ((count, d3), m3, e3) = bind-eq-unpacked (read_u32 d2) _ e2 in
    let (scopes, m4, e4) = bind-eq-unpacked (read_scopes count d3) _ e3 in
    let r1 = read_string_lem d username d1 (or_missing-eq_unpacked (read_string d) m1) in
    let r2 = read_string_lem d1 token d2 (or_missing-eq_unpacked (read_string d1) m2) in
    let (at, fits, h3) = read_u32_lem d2 count d3 (r2.more_bytes (r1.more_bytes h)) m3 in
    let same : record { username = username; token = token; scopes = scopes } ≡ a = ground arith in
    rw (← same) (assemble r1 r2 count fits at (read_scopes_lem count d3 scopes h3 m4))
