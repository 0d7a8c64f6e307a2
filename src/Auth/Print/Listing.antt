-- ===== src/Auth/Print/Listing.antt =====
-- print_authorizations against list_authorizations.
use rs_serve.Base.{
  ℕ, suc, ◌≡◌, refl, inl, inr, Option, none, some, List, [], ◌∷◌, ◌++◌, map, Bytes, codes, ◌==◌,
  if◌then◌else◌, Bool-cases, true, ◌≢◌, append_assoc,
}
use rs_serve.Auth.{Authorization}
use rs_serve.Auth.Database.{done, Database}
use rs_serve.Auth.Codec.{unpack_authorization}
use rs_serve.Auth.Store.{
  Lookup, found, null, garbage, aborted, unpack_unchecked, is_listed, calls, list_values,
  list_authorizations,
}
use rs_serve.Auth.Print.{
  print_authorization, Printed, printed, print_value, print_values, print_from_first,
  print_authorizations,
}

-- The records with what stands between them; `i` are printed already.
abbrev pub join : ℕ → List Authorization → Bytes
join i [] = codes "]\n"
join i (a ∷ auths) =
    (if i == 0 then [] else codes ", ") ++ (print_authorization a ++ join (suc i) auths)

-- A record that is no authorization is kept in the list, which then is not one of authorizations.
garbage_listed :
    (username : Option Bytes) (l : Lookup) (later : List Lookup) (auths : List Authorization)
    → ((a : Authorization) → l ≢ found a)
    → (if is_listed username l then l ∷ later else later) ≢ map found auths
unfolding is_listed
garbage_listed username (found a) later auths bad h = bad a refl
garbage_listed none l later [] bad h = cc
garbage_listed none l later (b ∷ auths) bad h = bad b cc
garbage_listed (some name) null later [] bad h = cc
garbage_listed (some name) null later (b ∷ auths) bad h = cc
garbage_listed (some name) garbage later [] bad h = cc
garbage_listed (some name) garbage later (b ∷ auths) bad h = cc
garbage_listed (some name) aborted later [] bad h = cc
garbage_listed (some name) aborted later (b ∷ auths) bad h = cc

-- One turn of the two loops, where those after it agree.
print_value-join :
    (username : Option Bytes) (l : Lookup) (later : List Lookup) (printing skipping : Printed)
    (i : ℕ) (auths : List Authorization)
    → ((rest : List Authorization)
        → later ≡ map found rest
        → printing ≡ printed (join (suc i) rest))
    → ((rest : List Authorization) → later ≡ map found rest → skipping ≡ printed (join i rest))
    → (if is_listed username l then l ∷ later else later) ≡ map found auths
    → print_value username i l printing skipping ≡ printed (join i auths)
unfolding print_value
print_value-join username (found a) later printing skipping i auths ih ih' h =
    elim (Bool-cases (is_listed username (found a))) [
      | inl e ↦ listed auths e (rw e at h)
      | inr e ↦ rw e (ih' auths (rw e at h))
    ]
  where
    listed :
        (auths : List Authorization)
        → is_listed username (found a) ≡ true
        → found a ∷ later ≡ map found auths
        → print_value username i (found a) printing skipping ≡ printed (join i auths)
    listed [] e h = cc
    listed (b ∷ rest) e h =
        let same : a ≡ b = cc in rw (e, same) (rw (ih rest cc) (simp append_assoc))
print_value-join username null later printing skipping i auths ih ih' h =
    absurd (garbage_listed username null later auths (λ a e. cc) h)
print_value-join username garbage later printing skipping i auths ih ih' h =
    absurd (garbage_listed username garbage later auths (λ a e. cc) h)
print_value-join username aborted later printing skipping i auths ih ih' h =
    absurd (garbage_listed username aborted later auths (λ a e. cc) h)

print_values-join :
    (username : Option Bytes) (values : List Bytes) (i : ℕ) (auths : List Authorization)
    → list_values username values ≡ map found auths
    → print_values username i values ≡ printed (join i auths)
unfolding print_values list_values
print_values-join username [] i [] h = refl
print_values-join username [] i (a ∷ auths) h = cc
print_values-join username (v ∷ values) i auths h =
    print_value-join username (unpack_unchecked (unpack_authorization v))
      (list_values username values) (print_values username (suc i) values)
      (print_values username i values) i auths (print_values-join username values (suc i))
      (print_values-join username values i) h

calls-injective : {ls ls' : List Lookup} → calls ls ≡ calls ls' → ls ≡ ls'
calls-injective h = cc

-- Where list_authorizations reports authorizations only and the database has a record,
-- print_authorizations prints the same ones in the same order between brackets.
pub print_authorizations-join :
    (D : Database) (db : D.Db) (username : Option Bytes) (v : Bytes) (values : List Bytes)
    (auths : List Authorization)
    → D.walk db ≡ done (v ∷ values)
    → list_authorizations D db username ≡ calls (map found auths)
    → print_authorizations D db username ≡ printed (codes "[" ++ join 0 auths)
unfolding print_authorizations list_authorizations print_from_first
print_authorizations-join D db username v values auths e h =
    let same : list_values username (v ∷ values) ≡ map found auths =
      calls-injective (rw (list_authorizations, e) at h) in
    rw (print_authorizations, e) (rw (print_values-join username (v ∷ values) 0 auths same) refl)
