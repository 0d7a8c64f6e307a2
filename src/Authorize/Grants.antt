-- ===== src/Authorize/Grants.antt =====
-- When authorize_request grants.
use rs_serve.Base.{
  ◌≡◌, refl, sym, ap, ◌∙◌, ◌≢◌, inl, inr, Option, none, some, List, [], ◌∷◌, ◌++◌, arith, Bytes,
  Bool-cases, if◌then◌else◌, true, false, ◌⊎◌,
}
use rs_serve.CString.{strn_eq}
use rs_serve.CString.Laws.{strn_eq_prefix, strn_eq-append}
use rs_serve.Request.{Request, is_read, is_directory, authorization}
use rs_serve.Auth.{Scope, Authorization}
use rs_serve.Auth.Database.{Database}
use rs_serve.Auth.Store.{Lookup, null, found, garbage, lookup_authorization}
use rs_serve.Authorize.{
  any_scope, granted, denied, bearer, public_prefix, is_public_read, decide_lookup, decide_header,
  authorize_request, undefined,
}
use rs_serve.Authorize.Scopes.{Covers, SomePermits, any_scope_iff}

-- A GET or HEAD of a file below `/public/`.
pub record PublicRead (req : Request) : Type 0 where
  pub rest : Bytes
  pub path_public : req.path ≡ public_prefix ++ rest
  pub reads : is_read req ≡ true
  pub on_file : is_directory req ≡ false

is_public_read→PublicRead : (req : Request) → is_public_read req ≡ true → PublicRead req
unfolding is_public_read
is_public_read→PublicRead req h =
    let (rest, e) = strn_eq_prefix req.path public_prefix (ground arith) in
    record { rest = rest; path_public = e; reads = ground arith; on_file = ground arith }

pub PublicRead-granted : (req : Request) → PublicRead req → is_public_read req ≡ true
unfolding is_public_read
PublicRead-granted req p =
    rw (p.path_public, strn_eq-append public_prefix p.rest, p.reads, p.on_file)

module _ (D : Database) (db : D.Db) where
  -- The request carries a token under which an authorization is stored that permits it.
  pub record TokenPermits (req : Request) : Type 0 where
    pub token : Bytes
    pub header : req.headers_in authorization ≡ some (bearer ++ token)
    pub auth : Authorization
    pub stored : lookup_authorization D db req.user token ≡ found auth
    pub permits : SomePermits auth.scopes req

  public_or_denied-granted :
      (req : Request)
      → (if is_public_read req then granted else denied) ≡ granted
      → TokenPermits req ⊎ PublicRead req
  public_or_denied-granted req h = elim (Bool-cases (is_public_read req)) [
    | inl e ↦ inr (is_public_read→PublicRead req e)
    | inr e ↦ let h' = rw e at h in cc
  ]

  lookup-needs :
      (req : Request) (token : Bytes) (l : Lookup)
      → req.headers_in authorization ≡ some (bearer ++ token)
      → lookup_authorization D db req.user token ≡ l
      → decide_lookup l req ≡ granted
      → TokenPermits req ⊎ PublicRead req
  unfolding decide_lookup
  lookup-needs req token null e l h = public_or_denied-granted req h
  lookup-needs req token garbage e l h = cc
  lookup-needs req token Lookup.aborted e l h = cc
  lookup-needs req token (found auth) e l h = elim (Bool-cases (any_scope auth.scopes req)) [
    | inl some_scope ↦ inl (record {
      token = token;
      header = e;
      auth = auth;
      stored = l;
      permits = (any_scope_iff auth.scopes req).0 some_scope;
    })
    | inr none_fits ↦ public_or_denied-granted req (rw none_fits at h)
  ]

  header-needs :
      (req : Request) (header : Option Bytes)
      → req.headers_in authorization ≡ header
      → decide_header D db req header ≡ granted
      → TokenPermits req ⊎ PublicRead req
  unfolding decide_header
  header-needs req none e h = public_or_denied-granted req h
  header-needs req (some text) e h = elim (Bool-cases (strn_eq text bearer 7)) [
    | inl is_bearer ↦
        let (token, split) = strn_eq_prefix text bearer is_bearer in
        lookup-needs req token (lookup_authorization D db req.user token) (e ∙ ap some split) refl
          (rw (is_bearer, split) at h)
    | inr e' ↦ public_or_denied-granted req (rw e' at h)
  ]

  -- A request is granted only by its token or as a read of a public file.
  pub granted-needs :
      (req : Request) → authorize_request D db req ≡ granted → TokenPermits req ⊎ PublicRead req
  granted-needs req h =
      header-needs req (req.headers_in authorization) refl (unfold authorize_request in h)

  -- The request carries a token whose stored record does not unpack.
  pub record GarbageToken (req : Request) : Type 0 where
    pub token : Bytes
    pub header : req.headers_in authorization ≡ some (bearer ++ token)
    pub unreadable : lookup_authorization D db req.user token ≡ garbage

  public_or_denied-defined :
      (req : Request) → (if is_public_read req then granted else denied) ≢ undefined
  public_or_denied-defined req h = elim (Bool-cases (is_public_read req)) [
    | inl e ↦ let h' = rw e at h in cc
    | inr e ↦ let h' = rw e at h in cc
  ]

  lookup-garbage : (l : Lookup) (req : Request) → decide_lookup l req ≡ undefined → l ≡ garbage
  unfolding decide_lookup
  lookup-garbage null req h = absurd (public_or_denied-defined req h)
  lookup-garbage garbage req h = refl
  lookup-garbage Lookup.aborted req h = cc
  lookup-garbage (found auth) req h = elim (Bool-cases (any_scope auth.scopes req)) [
    | inl e ↦ let h' = rw e at h in cc
    | inr e ↦ absurd (public_or_denied-defined req (rw e at h))
  ]

  header-GarbageToken :
      (req : Request) (header : Option Bytes)
      → req.headers_in authorization ≡ header
      → decide_header D db req header ≡ undefined
      → GarbageToken req
  unfolding decide_header
  header-GarbageToken req none e h = absurd (public_or_denied-defined req h)
  header-GarbageToken req (some text) e h = elim (Bool-cases (strn_eq text bearer 7)) [
    | inl is_bearer ↦
        let (token, split) = strn_eq_prefix text bearer is_bearer in
        record {
          token = token;
          header = e ∙ ap some split;
          unreadable =
              lookup-garbage (lookup_authorization D db req.user token) req
                (rw (is_bearer, split) at h);
        }
    | inr e' ↦ absurd (public_or_denied-defined req (rw e' at h))
  ]

  pub undefined-GarbageToken :
      (req : Request) → authorize_request D db req ≡ undefined → GarbageToken req
  undefined-GarbageToken req h =
      header-GarbageToken req (req.headers_in authorization) refl (unfold authorize_request in h)

  -- A request is granted if its Bearer token is stored for its user with a scope that permits it.
  pub TokenPermits-granted :
      (req : Request) → TokenPermits req → authorize_request D db req ≡ granted
  unfolding authorize_request
  TokenPermits-granted req t = rw (
    t.header,
    strn_eq-append bearer t.token,
    t.stored,
    (any_scope_iff t.auth.scopes req).1 t.permits,
  )

  -- Without an Authorization header the public rule alone decides.
  pub anonymous-granted :
      (req : Request)
      → req.headers_in authorization ≡ none
      → PublicRead req
      → authorize_request D db req ≡ granted
  unfolding authorize_request
  anonymous-granted req e p = rw (e, PublicRead-granted req p)

-- A scope of the list covers the path and has its write flag.
abbrev pub SomeWrites : List Scope → Bytes → Type 0
SomeWrites [] path = ⊥
SomeWrites (s ∷ scopes) path = (Covers s.name path × (s.write ≢ 0)) ⊎ SomeWrites scopes path

permits-writes :
    (scopes : List Scope) (req : Request)
    → is_read req ≡ false
    → SomePermits scopes req
    → SomeWrites scopes req.path
permits-writes [] req h p = p
permits-writes (s ∷ scopes) req h (inl p) = inl (p.covers, flag p.mode)
  where
    flag : (s.write ≢ 0) ⊎ (is_read req ≡ true) → s.write ≢ 0
    flag (inl w) = w
    flag (inr r) = let e = sym r ∙ h in cc
permits-writes (s ∷ scopes) req h (inr p) = inr (permits-writes scopes req h p)

module _ (D : Database) (db : D.Db) where
  -- A request that is not a read is granted only to a token that is stored for the user, with a scope
  -- that covers the path and has its write flag.
  pub write-needs_scope :
      (req : Request)
      → is_read req ≡ false
      → authorize_request D db req ≡ granted
      → (t : TokenPermits D db req) × SomeWrites t.auth.scopes req.path
  write-needs_scope req h g = from (granted-needs D db req g)
    where
      from :
          TokenPermits D db req ⊎ PublicRead req
          → (t : TokenPermits D db req) × SomeWrites t.auth.scopes req.path
      from (inl t) = (t, permits-writes t.auth.scopes req h t.permits)
      from (inr p) = let e = sym p.reads ∙ h in cc
