-- ===== src/Tools/Scopes.antt =====
-- The scope arguments of src/tools/add-token.c.
use rs_serve.Base.{
  ◌≡◌, refl, ◌≢◌, inl, inr, none, some, List, [], ◌∷◌, ◌++◌, map, arith, Bytes, All, length, suc,
  Option-cases, Bool-cases, ◌==◌, ◌<◌, if-both,
}
use rs_serve.CString.{str_eq}
use rs_serve.Auth.{Scope, IsCString, IsScope}
use rs_serve.Tools.{split_at_colon, root_scope, scope_of, parse_scopes}

abbrev pub HasNoColon : Bytes → Type 0
HasNoColon = All (λ c. c ≢ b':')

pub split_at_colon-append :
    (name mode : Bytes)
    → HasNoColon name
    → split_at_colon (name ++ (b':' ∷ mode)) ≡ some (name, mode)
unfolding split_at_colon
split_at_colon-append [] mode h = refl
split_at_colon-append (c ∷ name) mode h = ground (arith, split_at_colon-append name mode h.1)

split_at_colon-none : (arg : Bytes) → HasNoColon arg → split_at_colon arg ≡ none
unfolding split_at_colon
split_at_colon-none [] h = refl
split_at_colon-none (c ∷ arg) h = ground (arith, split_at_colon-none arg h.1)

split_at_colon-eq_some :
    (arg name mode : Bytes) → split_at_colon arg ≡ some (name, mode) → arg ≡ name ++ (b':' ∷ mode)
unfolding split_at_colon
split_at_colon-eq_some [] name mode h = cc
split_at_colon-eq_some (c ∷ arg) name mode h = elim (Bool-cases (c == b':')) [
  | inl e ↦ let h' = rw e at h in ground (arith, e)
  | inr e ↦ elim (Option-cases (split_at_colon arg)) [
    | inl e' ↦ let h' = rw (e, e') at h in cc
    | inr (parts, e') ↦
        let h' = rw (e, e') at h in
        let ih = split_at_colon-eq_some arg parts.0 parts.1 e' in ground (arith, h')
  ]
]

-- What is before the colon of a C string is one.
name-IsCString : (name rest : Bytes) → IsCString (name ++ rest) → IsCString name
name-IsCString [] rest h = tt
name-IsCString (c ∷ name) rest h = (h.0, name-IsCString name rest h.1)

scope_of-IsScope : (name mode : Bytes) → IsCString name → IsScope (scope_of name mode)
unfolding scope_of
scope_of-IsScope name mode text = record {
  name_text = if-both IsCString (str_eq name root_scope) [] name tt text;
  write_char = if-both (λ n. n < 256) _ 1 0 (omega arith) (omega arith);
}

-- The arguments that are read as scopes leave well-formed ones, one for each.
pub parse_scopes-IsScope :
    (args : List Bytes) (scopes : List Scope)
    → All IsCString args
    → parse_scopes args ≡ some scopes
    → All IsScope scopes × (length scopes ≡ length args)
unfolding parse_scopes
parse_scopes-IsScope [] [] text h = (tt, refl)
parse_scopes-IsScope [] (s ∷ scopes) text h = cc
parse_scopes-IsScope (arg ∷ args) scopes text h = elim (Option-cases (split_at_colon arg)) [
  | inl e ↦ let h' = rw e at h in cc
  | inr ((name, mode), e) ↦ elim (Option-cases (parse_scopes args)) [
    | inl e' ↦ let h' = rw (e, e') at h in cc
    | inr (rest, e') ↦
        parsed name mode rest e (rw (e, e') at h) (parse_scopes-IsScope args rest text.1 e')
  ]
]
  where
    parsed :
        (name mode : Bytes) (rest : List Scope)
        → split_at_colon arg ≡ some (name, mode)
        → some (scope_of name mode ∷ rest) ≡ some scopes
        → All IsScope rest × (length rest ≡ length args)
        → All IsScope scopes × (length scopes ≡ suc (length args))
    parsed name mode rest e h ih =
        let split = split_at_colon-eq_some arg name mode e in
        let is_text = name-IsCString name (b':' ∷ mode) (rw split at text.0) in
        let same : scopes ≡ scope_of name mode ∷ rest = cc in
        rw same ((scope_of-IsScope name mode is_text, ih.0), omega (arith, ih.1))

-- An argument `name:mode`.
abbrev pub argument : Bytes × Bytes → Bytes
argument (name, mode) = name ++ (b':' ∷ mode)

-- Arguments `name:mode` with no colon in the name are read in their order, `root` as the empty name and
-- any mode but `rw` as a read.
pub parse_scopes-map :
    (parts : List (Bytes × Bytes))
    → All (λ p. HasNoColon p.0) parts
    → parse_scopes (map argument parts) ≡ some (map (λ p. scope_of p.0 p.1) parts)
unfolding parse_scopes
parse_scopes-map [] h = refl
parse_scopes-map ((name, mode) ∷ parts) h =
    rw (split_at_colon-append name mode h.0, parse_scopes-map parts h.1) refl

-- An argument without a colon makes the tool read on behind it.
pub parse_scopes-none :
    (args : List Bytes) (arg : Bytes) (more : List Bytes)
    → HasNoColon arg
    → parse_scopes (args ++ (arg ∷ more)) ≡ none
unfolding parse_scopes
parse_scopes-none [] arg more h = rw (split_at_colon-none arg h) refl
parse_scopes-none (first ∷ args) arg more h = elim (Option-cases (split_at_colon first)) [
  | inl e ↦ rw e refl
  | inr (parts, e) ↦ rw (e, parse_scopes-none args arg more h) refl
]
