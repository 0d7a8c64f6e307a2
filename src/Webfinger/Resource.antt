-- ===== src/Webfinger/Resource.antt =====
-- Which resources name a user.
use rs_serve.Base.{
  ◌≤◌, ◌≡◌, refl, ap, ◌≢◌, inl, inr, Option, none, some, [], ◌∷◌, ◌++◌, arith, Bytes, codes,
  Bool-cases, All, ◌⊎◌,
}
use rs_serve.CString.{strn_eq}
use rs_serve.CString.Laws.{str_eq_iff, strn_eq_prefix, strn_eq-append}
use rs_serve.Config.{Config, min_uid}
use rs_serve.User.{
  Users, missing, failing, user_get_uid, Getpwnam, found, Passwd, entry_of, entry_uid,
  user_get_entry,
}
use rs_serve.Webfinger.{
  Uris, sprintf_s, storage_uri_format, split_at_sign, process_account, process_resource,
}

split_at_sign-append :
    (local_part host : Bytes)
    → All (λ c. c ≢ b'@') local_part
    → split_at_sign (local_part ++ (b'@' ∷ host)) ≡ some (local_part, host)
unfolding split_at_sign
split_at_sign-append [] host h = refl
split_at_sign-append (c ∷ l) host h = ground (arith, split_at_sign-append l host h.1)

split_at_sign_lem :
    (s local_part host : Bytes)
    → split_at_sign s ≡ some (local_part, host)
    → (s ≡ local_part ++ (b'@' ∷ host)) × All (λ c. c ≢ b'@') local_part
unfolding split_at_sign
split_at_sign_lem [] l host e = cc
split_at_sign_lem (c ∷ s) [] host e = ground arith
split_at_sign_lem (c ∷ s) (x ∷ l) host e = ground (arith, split_at_sign_lem s l host)

-- A user that is not one below RS_MIN_UID, or no user at all: user_get_uid reports a missing user and an
-- error as uids that pass the test.
pub data IsAccepted (users : Users) (name : Bytes) : Type 0 where
  known : (p : Passwd) → users name ≡ found p → min_uid ≤ p.uid → IsAccepted users name
  unknown : users name ≡ missing → IsAccepted users name
  lookup_failed : users name ≡ failing → IsAccepted users name

IsAccepted-allowed :
    (users : Users) (name : Bytes)
    → IsAccepted users name
    → min_uid ≤ user_get_uid users (some name)
unfolding user_get_uid user_get_entry entry_uid
IsAccepted-allowed users name (known p e h) = rw e h
IsAccepted-allowed users name (unknown e) = rw e (omega arith)
IsAccepted-allowed users name (lookup_failed e) = rw e (omega arith)

allowed-IsAccepted :
    (users : Users) (name : Bytes) (g : Getpwnam)
    → users name ≡ g
    → min_uid ≤ entry_uid (entry_of g)
    → IsAccepted users name
unfolding entry_uid
allowed-IsAccepted users name (found p) e h = known p e h
allowed-IsAccepted users name missing e h = unknown e
allowed-IsAccepted users name failing e h = lookup_failed e

-- The resource is an account of this host: `acct:local@hostname`, with an accepted name.
pub record Names (cfg : Config) (users : Users) (resource local_part : Bytes) : Type 0 where
  pub splits : resource ≡ codes "acct:" ++ (local_part ++ (b'@' ∷ cfg.hostname))
  pub no_at : All (λ c. c ≢ b'@') local_part
  pub allowed : IsAccepted users local_part

abbrev pub uris_of : Config → Bytes → Uris
uris_of cfg local_part = record {
  storage_uri = sprintf_s (storage_uri_format cfg) local_part;
  auth_uri = sprintf_s cfg.auth_uri local_part;
}

-- A resource that names an account of this host, `acct:name@host` with a uid that is allowed, is
-- accepted with the URIs of the account.
pub Names-process_resource :
    (cfg : Config) (users : Users) (resource local_part : Bytes)
    → Names cfg users resource local_part
    → process_resource cfg users (some resource) ≡ some (uris_of cfg local_part)
unfolding process_resource
Names-process_resource cfg users resource l n =
    rw
      (
        n.splits,
        strn_eq-append (codes "acct:") (l ++ (b'@' ∷ cfg.hostname)),
        split_at_sign-append l cfg.hostname n.no_at,
        (str_eq_iff cfg.hostname cfg.hostname).1 refl,
      )
      (let allowed = IsAccepted-allowed users l n.allowed in ground arith)

process_account_lem :
    (cfg : Config) (users : Users) (rest : Bytes) (at : Option (Bytes × Bytes)) (uris : Uris)
    → split_at_sign rest ≡ at
    → process_account cfg users at ≡ some uris
    → (l : Bytes) × Names cfg users (codes "acct:" ++ rest) l × (uris ≡ uris_of cfg l)
unfolding process_account
process_account_lem cfg users rest none uris at e = cc
process_account_lem cfg users rest (some (l, host)) uris at e =
    let (splits, no_at) = split_at_sign_lem rest l host at in
    let here : host ≡ cfg.hostname = (str_eq_iff host cfg.hostname).0 (ground arith) in
    (
      l,
      record {
        splits = ap (λ s. codes "acct:" ++ s) (rw (← here) splits);
        no_at = no_at;
        allowed = allowed-IsAccepted users l (users l) refl (
            let passes : min_uid ≤ user_get_uid users (some l) = ground arith in
            unfold user_get_uid user_get_entry in passes);
      },
      ground arith,
    )

-- What the handler accepts is a resource that names an account of this host, and its URIs are those of
-- the account.
pub process_resource-Names :
    (cfg : Config) (users : Users) (resource : Bytes) (uris : Uris)
    → process_resource cfg users (some resource) ≡ some uris
    → (l : Bytes) × Names cfg users resource l × (uris ≡ uris_of cfg l)
unfolding process_resource
process_resource-Names cfg users resource uris e =
    elim (Bool-cases (strn_eq resource (codes "acct:") 5)) [
      | inl scheme ↦
          let (rest, split) = strn_eq_prefix resource (codes "acct:") scheme in
          rw split (
            process_account_lem cfg users rest (split_at_sign rest) uris refl
              (rw (scheme, split) at e))
      | inr bad ↦ let e' = rw bad at e in cc
    ]

-- user_get_uid reports a missing user and an error as uids that pass the test: the resource of an
-- account that does not exist is accepted.
pub process_resource-no_user :
    (cfg : Config) (users : Users) (local_part : Bytes)
    → All (λ c. c ≢ b'@') local_part
    → (users local_part ≡ missing) ⊎ (users local_part ≡ failing)
    → process_resource cfg users (some (codes "acct:" ++ (local_part ++ (b'@' ∷ cfg.hostname))))
      ≡ some (uris_of cfg local_part)
process_resource-no_user cfg users l no_at no_user =
    Names-process_resource cfg users (codes "acct:" ++ (l ++ (b'@' ∷ cfg.hostname))) l
      (record { splits = refl; no_at = no_at; allowed = either no_user })
  where
    either : (users l ≡ missing) ⊎ (users l ≡ failing) → IsAccepted users l
    either (inl e) = unknown e
    either (inr e) = lookup_failed e
