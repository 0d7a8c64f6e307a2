-- ===== src/Authorize/Scopes.antt =====
-- What a scope covers.
use rs_serve.Base.{
  ℕ, suc, ◌≡◌, ap, ◌≢◌, inl, inr, List, [], ◌∷◌, ◌++◌, arith, Bytes, length, Bool-cases, ◌↔◌, true,
  ◌&&◌, drop, ◌⊎◌,
}
use rs_serve.CString.{str_eq, strn_eq}
use rs_serve.CString.Laws.{str_eq_iff, strn_eq-append}
use rs_serve.Request.{Request, is_read}
use rs_serve.Auth.{Scope}
use rs_serve.Authorize.{has_byte, covers_path, match_scope, any_scope}

-- The path lies below the directory of that name, or below the root for the empty name.
abbrev pub Covers : Bytes → Bytes → Type 0
Covers name path =
    (name ≡ []) ⊎ ((first : ℕ) × (rest : Bytes) × (path ≡ first ∷ (name ++ (b'/' ∷ rest))))

covers-rest :
    (name p : Bytes)
    → strn_eq p name (length name) ≡ true
    → has_byte p (length name) b'/' ≡ true
    → (rest : Bytes) × (p ≡ name ++ (b'/' ∷ rest))
unfolding strn_eq
covers-rest [] [] h k = cc
covers-rest [] (c ∷ p) h k = (p, ground arith)
covers-rest (y ∷ name) [] h k = cc
covers-rest (y ∷ name) (x ∷ p) h k =
    let (rest, e) = covers-rest name p (ground arith) k in (rest, ground arith)

has_byte-append :
    (s : Bytes) (c : ℕ) (rest : Bytes) → has_byte (s ++ (c ∷ rest)) (length s) c ≡ true
has_byte-append [] c rest = ground arith
has_byte-append (x ∷ s) c rest = has_byte-append s c rest

scope-Covers :
    (scope : Scope) (path : Bytes) → covers_path scope path ≡ true → Covers scope.name path
unfolding covers_path
scope-Covers scope path h = elim (Bool-cases (str_eq scope.name [])) [
  | inl root ↦ inl ((str_eq_iff scope.name []).0 root)
  | inr other ↦ below path (rw other at h)
]
  where
    below :
        (p : Bytes)
        → strn_eq (drop 1 p) scope.name (length scope.name)
            && has_byte p (suc (length scope.name)) b'/'
          ≡ true
        → Covers scope.name p
    below [] k = ground arith
    below (first ∷ p) k =
        let (rest, e) = covers-rest scope.name p (ground arith) (ground arith) in
        inr (first, rest, ap (◌∷◌ first) e)

Covers→covers_path :
    (scope : Scope) (path : Bytes) → Covers scope.name path → covers_path scope path ≡ true
unfolding covers_path
Covers→covers_path scope path (inl e) = rw ((str_eq_iff scope.name []).1 e)
Covers→covers_path scope path (inr (first, rest, e)) =
    rw (e, strn_eq-append scope.name (b'/' ∷ rest), has_byte-append scope.name b'/' rest)
      (ground arith)

-- The two tests of match_scope on the path accept what the scope covers, and nothing else.
pub covers_path_iff :
    (scope : Scope) (path : Bytes) → (covers_path scope path ≡ true) ↔ Covers scope.name path
covers_path_iff scope path = (scope-Covers scope path, Covers→covers_path scope path)

-- What a scope permits: reading below its directory, and writing if its flag is set.
pub record Permits (scope : Scope) (req : Request) : Type 0 where
  pub covers : Covers scope.name req.path
  pub mode : (scope.write ≢ 0) ⊎ (is_read req ≡ true)

-- A scope matches a request exactly if it permits it: it covers the path, as the root scope or as its
-- first name, and has its write flag or the request is a read.
pub match_scope_iff :
    (scope : Scope) (req : Request) → (match_scope scope req ≡ true) ↔ Permits scope req
unfolding match_scope
match_scope_iff scope req = (
  λ h. record { covers = (covers_path_iff scope req.path).0 (ground arith); mode = ground arith },
  λ p. let c = (covers_path_iff scope req.path).1 p.covers in ground (arith, p.mode),
)

-- Some scope of the list permits the request.
abbrev pub SomePermits : List Scope → Request → Type 0
SomePermits [] req = ⊥
SomePermits (s ∷ scopes) req = Permits s req ⊎ SomePermits scopes req

module _ (s : Scope) (scopes : List Scope) (req : Request) where
  some_scope :
      ((any_scope scopes req ≡ true) ↔ SomePermits scopes req)
      → any_scope (s ∷ scopes) req ≡ true
      → SomePermits (s ∷ scopes) req
  unfolding any_scope
  some_scope later h = elim (Bool-cases (match_scope s req)) [
    | inl e ↦ inl ((match_scope_iff s req).0 e)
    | inr e ↦ inr (later.0 (rw e at h))
  ]

  scope_found :
      ((any_scope scopes req ≡ true) ↔ SomePermits scopes req)
      → SomePermits (s ∷ scopes) req
      → any_scope (s ∷ scopes) req ≡ true
  unfolding any_scope
  scope_found later (inl p) = rw ((match_scope_iff s req).1 p)
  scope_found later (inr p) = let e = later.1 p in unfold match_scope in ground arith

pub any_scope_iff :
    (scopes : List Scope) (req : Request) → (any_scope scopes req ≡ true) ↔ SomePermits scopes req
any_scope_iff [] req = (unfold any_scope in λ h. cc, λ h. absurd h)
any_scope_iff (s ∷ scopes) req =
    let later = any_scope_iff scopes req in
    (some_scope s scopes req later, scope_found s scopes req later)
