-- ===== src/Auth/Store/Laws.antt =====
-- The store of authorizations as a map from user and token.
use rs_serve.Base.{
  ◌^◌, ◌<◌, ◌≡◌, refl, ◌≢◌, inl, inr, List, [], ◌∷◌, ◌++◌, arith, Bytes, length, Bool-cases,
  apply-if, take-length, append_assoc, All, ◌==◌, if◌then◌else◌, false, ◌&&◌,
}
use rs_serve.CString.{str_eq}
use rs_serve.CString.Laws.{str_eq_iff}
use rs_serve.Auth.{Scope, Authorization, IsAuthorization}
use rs_serve.Auth.Codec.RoundTrip.{layout, pack_authorization-small, unpack-layout, length-layout}
use rs_serve.Auth.Database.{done, not_found, Database, IsDatabase}
use rs_serve.Auth.Store.{
  make_key, success, aborted, null, found, add_authorization, remove_authorization,
  lookup_authorization, lookup_result,
}

-- A user name that the key keeps apart from the token.
abbrev pub HasNoBar : Bytes → Type 0
HasNoBar = All (λ c. c ≢ b'|')

make_key-injective :
    (u t u' t' : Bytes)
    → HasNoBar u
    → HasNoBar u'
    → make_key u t ≡ make_key u' t'
    → (u ≡ u') × (t ≡ t')
unfolding make_key
make_key-injective [] t [] t' h h' e = ground arith
make_key-injective [] t (y ∷ u') t' h h' e = ground arith
make_key-injective (x ∷ u) t [] t' h h' e = ground arith
make_key-injective (x ∷ u) t (y ∷ u') t' h h' e =
    ground (arith, make_key-injective u t u' t' h.1 h'.1)

-- The test of the database on keys is the test on their parts.
str_eq-make_key :
    (u t u' t' : Bytes)
    → HasNoBar u
    → HasNoBar u'
    → str_eq (make_key u t) (make_key u' t') ≡ (str_eq u u' && str_eq t t')
str_eq-make_key u t u' t' h h' = elim (Bool-cases (str_eq (make_key u t) (make_key u' t'))) [
  | inl e ↦
      let (p, q) = make_key-injective u t u' t' h h' ((str_eq_iff _ _).0 e) in
      ground (arith, e, (str_eq_iff u u').1 p, (str_eq_iff t t').1 q)
  | inr e ↦
      ground
        (arith, e, str_eq_iff u u', str_eq_iff t t', str_eq_iff (make_key u t) (make_key u' t'))
]

-- An authorization of less than 2 ^ 32 bytes is stored as its layout under the key, and success is
-- reported whatever `put` returns.
pub add_authorization-small :
    (D : Database) (db : D.Db) (a : Authorization)
    → length (layout a []) < 2 ^ 32
    → add_authorization D db a ≡ ((D.put db (make_key a.username a.token) (layout a [])).0, success)
unfolding add_authorization
add_authorization-small D db a h =
    let full = length-layout a in
    let positive : (length (layout a []) == 0) ≡ false = ground arith in
    rw (pack_authorization-small a h, positive, take-length (layout a [])) refl

pub add-not_aborted :
    (D : Database) (db : D.Db) (a : Authorization)
    → length (layout a []) < 2 ^ 32
    → (add_authorization D db a).1 ≢ aborted
add-not_aborted D db a h e = let e' = rw (add_authorization-small D db a h) at e in cc

module _ (D : Database) (db : D.Db) (a : Authorization) where
  abbrev pub value : Bytes
  value = layout a []

  abbrev pub key : Bytes
  key = make_key a.username a.token

  pub add-layout :
      length value < 2 ^ 32 → add_authorization D db a ≡ ((D.put db key value).0, success)
  add-layout h = add_authorization-small D db a h

  -- After a well-formed authorization of less than 2 ^ 32 bytes is added, with a `put` that succeeds, a
  -- lookup finds it under its user and token, and what it found before under any other pair, if no
  -- user name holds a bar.
  pub lookup-add :
      IsDatabase D
      → IsAuthorization a
      → length value < 2 ^ 32
      → (D.put db key value).1 ≡ done tt
      → HasNoBar a.username
      → (username token : Bytes) → HasNoBar username
      → lookup_authorization D (add_authorization D db a).0 username token ≡ (
          if str_eq a.username username && str_eq a.token token
          then found a
          else lookup_authorization D db username token)
  unfolding lookup_authorization
  lookup-add law valid small stored bar username token bar' =
      let read = unpack-layout a [] valid in
      rw (
        add-layout small,
        law.get-put db key value (make_key username token) stored,
        str_eq-make_key a.username a.token username token bar bar',
        apply-if lookup_result (str_eq a.username username && str_eq a.token token) (done value)
            (D.get db (make_key username token)),
        read,
      )

  -- With a `del` that succeeds what is removed is not found any more, and all else is found as before,
  -- if no user name holds a bar.
  pub lookup-remove :
      IsDatabase D
      → (D.del db key).1 ≡ done tt
      → HasNoBar a.username
      → (username token : Bytes) → HasNoBar username
      → ((remove_authorization D db a).1 ≡ success)
        × (lookup_authorization D (remove_authorization D db a).0 username token ≡ (
            if str_eq a.username username && str_eq a.token token
            then null
            else lookup_authorization D db username token))
  unfolding lookup_authorization remove_authorization
  lookup-remove law removed bar username token bar' = (
    rw removed,
    rw (
      law.get-del db key (make_key username token) removed,
      str_eq-make_key a.username a.token username token bar bar',
      apply-if lookup_result (str_eq a.username username && str_eq a.token token) not_found
          (D.get db (make_key username token)),
    ),
  )

  -- A `put` of an authorization of less than 2 ^ 32 bytes that fails is reported as a success, and the
  -- database is as it was: the authorization is lost.
  pub add-failed_silently :
      IsDatabase D
      → length value < 2 ^ 32
      → (D.put db key value).1 ≢ done tt
      → add_authorization D db a ≡ (db, success)
  add-failed_silently law small e = rw (add-layout small, law.put-failed db key value e)

-- With a bar in a name the key is ambiguous: the well-formed authorization of user `u` with token
-- `s|t`, of less than 2 ^ 32 bytes and with a `put` that succeeds, is then found for user `u|s` with
-- token `t`.
pub lookup-add_ambiguous :
    (D : Database) (db : D.Db) (u s t : Bytes) (scopes : List Scope)
    → IsDatabase D
    → IsAuthorization (record { username = u; token = s ++ (b'|' ∷ t); scopes = scopes })
    → length (layout (record { username = u; token = s ++ (b'|' ∷ t); scopes = scopes }) [])
      < 2 ^ 32
    → (D.put db
        (make_key u (s ++ (b'|' ∷ t)))
        (layout (record { username = u; token = s ++ (b'|' ∷ t); scopes = scopes }) [])).1
      ≡ done tt
    → lookup_authorization D
        (add_authorization D db
          (record { username = u; token = s ++ (b'|' ∷ t); scopes = scopes })).0
        (u ++ (b'|' ∷ s))
        t
      ≡ found (record { username = u; token = s ++ (b'|' ∷ t); scopes = scopes })
unfolding lookup_authorization
lookup-add_ambiguous D db u s t scopes law valid small stored =
    let a : Authorization = record { username = u; token = s ++ (b'|' ∷ t); scopes = scopes } in
    let same : make_key (u ++ (b'|' ∷ s)) t ≡ key D db a =
      unfold make_key in append_assoc u (b'|' ∷ s) (b'|' ∷ t) in
    rw (
      add-layout D db a small,
      same,
      law.get-put db (key D db a) (value D db a) (key D db a) stored,
      (str_eq_iff (key D db a) (key D db a)).1 refl,
      unpack-layout a [] valid,
    )
