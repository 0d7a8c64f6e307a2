-- ===== src/Bindings/Agree.antt =====
-- The bindings of auth/bindings/auth.cc against each other and against src/tools/add-token.c.
use rs_serve.Base.{
  ◌<◌, ◌^◌, ◌≡◌, ◌≢◌, refl, ap, some, List, [], ◌∷◌, ◌++◌, map, Bytes, codes, length, All, arith,
  if◌then◌else◌, ltb, ltb_iff, if-both, true,
}
use rs_serve.CString.{str_eq}
use rs_serve.CString.Laws.{str_eq_iff}
use rs_serve.Auth.{Authorization, IsCString, IsScope, IsAuthorization}
use rs_serve.Auth.Database.{done, Database, IsDatabase}
use rs_serve.Auth.Store.{
  Status, success, error, database_error, aborted, found, add_authorization, lookup_authorization,
}
use rs_serve.Auth.Store.Laws.{HasNoBar, value, key, add-not_aborted, lookup-add}
use rs_serve.Tools.{exited, add_parsed, add_token, scope_of, parse_scopes}
use rs_serve.Tools.Tokens.{after_add-exited}
use rs_serve.Tools.Scopes.{HasNoColon, argument, parse_scopes-map}
use rs_serve.Auth.Print.{print_authorization}
use rs_serve.Bindings.{
  V8, undefined, returns, set_scope, auth_to_object, scope_of_property, after_add, add, lookup,
}

-- An ASCII value is read as a C string.
pub record IsV8 (V : V8) : Type 0 where
  pub ascii_text : (v : V.Value) → IsCString (V.ascii v)

module _ (V : V8) (D : Database) (db : D.Db) (user token scopes : V.Value) where
  abbrev pub authorization_of : Authorization
  authorization_of = record {
    username = V.ascii user;
    token = V.ascii token;
    scopes = map (scope_of_property V D) (V.properties scopes);
  }

  abbrev pub with_token : D.Db
  with_token = (add_authorization D db authorization_of).0

  -- A property as it is given back: `root` as the empty name, any mode but `rw` as a read.
  abbrev pub given_back : V.Value × V.Value → Bytes × Bytes
  given_back (name, mode) = (
    if str_eq (V.ascii name) (codes "root") then [] else V.ascii name,
    if str_eq (V.ascii mode) (codes "rw") then codes "rw" else codes "r",
  )

  add-undefined :
      (args : List V.Value)
      → length (value D db authorization_of) < 2 ^ 32
      → add V D db (user ∷ token ∷ scopes ∷ args) ≡ undefined with_token
  unfolding add after_add
  add-undefined args small =
      not_aborted (add_authorization D db authorization_of)
        (add-not_aborted D db authorization_of small)
    where
      not_aborted : (r : D.Db × Status) → r.1 ≢ aborted → after_add V D r ≡ undefined r.0
      not_aborted (db, success) h = refl
      not_aborted (db, error) h = refl
      not_aborted (db, database_error e) h = refl
      not_aborted (db, aborted) h = absurd (h refl)

  given_back-set_scope :
      (p : V.Value × V.Value) → set_scope (scope_of_property V D p) ≡ given_back p
  unfolding scope_of_property
  given_back-set_scope (name, mode) = ground arith

  given_back-map :
      (ps : List (V.Value × V.Value))
      → map set_scope (map (scope_of_property V D) ps) ≡ map given_back ps
  given_back-map [] = refl
  given_back-map (p ∷ ps) = rw (given_back-set_scope p, given_back-map ps) refl

  length-map : (ps : List (V.Value × V.Value)) → length (map (scope_of_property V D) ps) ≡ length ps
  length-map [] = refl
  length-map (p ∷ ps) = omega (arith, length-map ps)

  scopes-IsScope :
      IsV8 V → (ps : List (V.Value × V.Value)) → All IsScope (map (scope_of_property V D) ps)
  unfolding scope_of_property
  scopes-IsScope law [] = tt
  scopes-IsScope law ((name, mode) ∷ ps) = (
    record {
      name_text =
          if-both IsCString (str_eq (V.ascii name) (codes "root")) [] (V.ascii name) tt
            (law.ascii_text name);
      write_char =
          if-both (λ n. n < 256) (str_eq (V.ascii mode) (codes "rw")) 1 0 (omega arith)
            (omega arith);
    },
    scopes-IsScope law ps,
  )

  -- After Add has been called with a user, a token and an object of fewer than 2 ^ 31 properties, Lookup
  -- returns that user and token, and the properties with their modes, `root` as the empty name and any
  -- mode but `rw` as `r`; if the user name holds no bar, the authorization has less than 2 ^ 32 bytes
  -- and the `put` succeeds.
  pub lookup-returns_added :
      (args args' : List V.Value)
      → IsV8 V
      → IsDatabase D
      → HasNoBar (V.ascii user)
      → length (V.properties scopes) < 2 ^ 31
      → length (value D db authorization_of) < 2 ^ 32
      → (D.put db (key D db authorization_of) (value D db authorization_of)).1 ≡ done tt
      → (db' : D.Db) × (add V D db (user ∷ token ∷ scopes ∷ args) ≡ undefined db')
        × (lookup V D db' (user ∷ token ∷ args')
            ≡ returns db' (record {
              username = V.ascii user;
              token = V.ascii token;
              scopes = map given_back (V.properties scopes);
            }))
  unfolding lookup auth_to_object
  lookup-returns_added args args' is_v8 law bar few small stored =
      let count = length-map (V.properties scopes) in
      let valid : IsAuthorization authorization_of = record {
        username_text = is_v8.ascii_text user;
        token_text = is_v8.ascii_text token;
        scopes_valid = scopes-IsScope is_v8 (V.properties scopes);
        count_fits = omega (arith, count, few);
      } in
      let found_added : lookup_authorization D with_token (V.ascii user) (V.ascii token)
          ≡ found authorization_of =
        rw
          (
            lookup-add D db authorization_of law valid small stored bar (V.ascii user)
                (V.ascii token) bar,
            (str_eq_iff (V.ascii user) (V.ascii user)).1 refl,
            (str_eq_iff (V.ascii token) (V.ascii token)).1 refl,
          )
          refl in
      let not_negative : ltb (length authorization_of.scopes) (2 ^ 31) ≡ true =
        (ltb_iff _ _).1 (omega (arith, count, few)) in
      (
        with_token,
        add-undefined args small,
        rw (found_added) (rw (not_negative, given_back-map (V.properties scopes)) refl),
      )

  -- The names and modes of properties, as C strings.
  abbrev pub texts : List (V.Value × V.Value) → List (Bytes × Bytes)
  texts ps = map (λ p. (V.ascii p.0, V.ascii p.1)) ps

  texts-scopes :
      (ps : List (V.Value × V.Value))
      → map (λ p. scope_of p.0 p.1) (texts ps) ≡ map (scope_of_property V D) ps
  unfolding scope_of scope_of_property
  texts-scopes [] = refl
  texts-scopes (p ∷ ps) = ap (◌∷◌ (scope_of_property V D p)) (texts-scopes ps)

  -- Add and add-token.c leave the same database: for an object with at least one property and no colon
  -- in a name, of less than 2 ^ 32 bytes when packed, the tool is called with an argument `name:mode` for
  -- each property, and exits with 0.
  pub add-add_token :
      (args : List V.Value) (p : V.Value × V.Value) (ps : List (V.Value × V.Value))
      → V.properties scopes ≡ p ∷ ps
      → All (λ q. HasNoColon q.0) (texts (p ∷ ps))
      → length (value D db authorization_of) < 2 ^ 32
      → (db' : D.Db) × (add V D db (user ∷ token ∷ scopes ∷ args) ≡ undefined db')
        × (add_token D db (V.ascii user ∷ V.ascii token ∷ map argument (texts (p ∷ ps)))
            ≡ exited db' 0 (print_authorization authorization_of ++ codes "\n"))
  unfolding add_token add_parsed
  add-add_token args p ps e no_colon small =
      let parsed : parse_scopes (map argument (texts (p ∷ ps))) ≡ some authorization_of.scopes =
        rw (parse_scopes-map (texts (p ∷ ps)) no_colon, texts-scopes (p ∷ ps), e) refl in
      (
        with_token,
        add-undefined args small,
        rw parsed (
            after_add-exited D authorization_of (add_authorization D db authorization_of)
              (add-not_aborted D db authorization_of small)),
      )
