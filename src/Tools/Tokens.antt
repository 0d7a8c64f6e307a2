-- ===== src/Tools/Tokens.antt =====
-- What src/tools/add-token.c and src/tools/remove-token.c do to later lookups and requests.
use rs_serve.Base.{
  ◌<◌, ◌^◌, ◌≡◌, ◌≢◌, refl, some, List, [], ◌∷◌, ◌++◌, Bytes, codes, length, All, arith,
  if◌then◌else◌,
}
use rs_serve.CString.Laws.{str_eq_iff, strn_eq-append}
use rs_serve.Request.{Request, authorization}
use rs_serve.Auth.{Scope, Authorization, IsCString, IsAuthorization}
use rs_serve.Auth.Database.{done, Database, IsDatabase}
use rs_serve.Auth.Store.{
  Status, success, error, database_error, aborted, found, add_authorization, remove_authorization,
  lookup_authorization,
}
use rs_serve.Auth.Store.Laws.{HasNoBar, value, key, add-not_aborted, lookup-add, lookup-remove}
use rs_serve.Auth.Print.{print_authorization}
use rs_serve.Authorize.{
  granted, denied, bearer, is_public_read, authorize_request, decide_header, decide_lookup,
}
use rs_serve.Authorize.Scopes.{SomePermits}
use rs_serve.Authorize.Grants.{TokenPermits-granted}
use rs_serve.Tools.{
  exited, after_add, parse_scopes, add_token, lookup_token, returned, remove_token,
}
use rs_serve.Tools.Scopes.{parse_scopes-IsScope}

-- Whatever add_authorization returns, if it returns.
pub after_add-exited :
    (D : Database) (auth : Authorization) (r : D.Db × Status)
    → r.1 ≢ aborted
    → after_add D auth r ≡ exited r.0 0 (print_authorization auth ++ codes "\n")
unfolding after_add
after_add-exited D auth (db, success) h = refl
after_add-exited D auth (db, error) h = refl
after_add-exited D auth (db, database_error e) h = refl
after_add-exited D auth (db, aborted) h = absurd (h refl)

module _ (D : Database) (db : D.Db) (user token arg : Bytes) (args : List Bytes)
    (scopes : List Scope) where
  abbrev pub added : Authorization
  added = record { username = user; token = token; scopes = scopes }

  -- Arguments of add-token.c that are C strings, with a colon in each scope and no bar in the user name,
  -- for an authorization of less than 2 ^ 32 bytes and a `put` that succeeds.
  pub record CanAdd : Type 0 where
    pub user_text : IsCString user
    pub token_text : IsCString token
    pub args_text : All IsCString (arg ∷ args)
    pub no_bar : HasNoBar user
    pub parsed : parse_scopes (arg ∷ args) ≡ some scopes
    pub few : length (arg ∷ args) < 2 ^ 32
    pub small : length (value D db added) < 2 ^ 32
    pub stored : (D.put db (key D db added) (value D db added)).1 ≡ done tt

  -- The database that the tool leaves.
  abbrev pub with_token : D.Db
  with_token = (add_authorization D db added).0

  add_token-exited :
      CanAdd
      → add_token D db (user ∷ token ∷ arg ∷ args)
        ≡ exited with_token 0 (print_authorization added ++ codes "\n")
  unfolding add_token
  add_token-exited can = rw can.parsed (
      after_add-exited D added (add_authorization D db added)
        (add-not_aborted D db added can.small))

  lookup-added : CanAdd → IsDatabase D → lookup_authorization D with_token user token ≡ found added
  lookup-added can law =
      let (scopes_valid, count) =
        parse_scopes-IsScope (arg ∷ args) scopes can.args_text can.parsed in
      let valid : IsAuthorization added = record {
        username_text = can.user_text;
        token_text = can.token_text;
        scopes_valid = scopes_valid;
        count_fits = omega (arith, count, can.few);
      } in
      rw
        (
          lookup-add D db added law valid can.small can.stored can.no_bar user token can.no_bar,
          (str_eq_iff user user).1 refl,
          (str_eq_iff token token).1 refl,
        )
        refl

  -- After add-token.c has added a token, lookup-token.c succeeds for it and prints the text that
  -- add-token.c printed. The arguments are C strings with a colon in each scope and no bar in the user
  -- name, the authorization has less than 2 ^ 32 bytes, and the `put` succeeds.
  pub lookup_token-add_token :
      (progname : Bytes)
      → IsDatabase D
      → CanAdd
      → (db' : D.Db) × (out : Bytes) × (add_token D db (user ∷ token ∷ arg ∷ args)
          ≡ exited db' 0 out)
        × (lookup_token D progname db' (user ∷ token ∷ []) ≡ exited db' 0 out)
  unfolding lookup_token
  lookup_token-add_token progname law can = (
    with_token,
    print_authorization added ++ codes "\n",
    add_token-exited can,
    rw (lookup-added can law) refl,
  )

  -- After add-token.c has added a token, a request of its user with the token in its Bearer header is
  -- granted if one of the scopes permits it, under the conditions on the arguments that `CanAdd` lists.
  pub add_token-granted :
      (req : Request)
      → IsDatabase D
      → CanAdd
      → req.user ≡ user
      → req.headers_in authorization ≡ some (bearer ++ token)
      → SomePermits scopes req
      → (db' : D.Db) × (out : Bytes) × (add_token D db (user ∷ token ∷ arg ∷ args)
          ≡ exited db' 0 out)
        × (authorize_request D db' req ≡ granted)
  add_token-granted req law can of_user header permits = (
    with_token,
    print_authorization added ++ codes "\n",
    add_token-exited can,
    TokenPermits-granted D with_token req (record {
      token = token;
      header = header;
      auth = added;
      stored = rw of_user (lookup-added can law);
      permits = permits;
    }),
  )

module _ (D : Database) (db : D.Db) (user token : Bytes) (args : List Bytes) where
  abbrev pub removed : Authorization
  removed = record { username = user; token = token; scopes = [] }

  -- After remove-token.c has removed a token, with a `del` that succeeds and no bar in the user name, the
  -- token permits nothing: a request of its user that carries it is granted by the public rule alone.
  pub remove_token-revokes :
      (req : Request)
      → IsDatabase D
      → (D.del db (key D db removed)).1 ≡ done tt
      → HasNoBar user
      → req.user ≡ user
      → req.headers_in authorization ≡ some (bearer ++ token)
      → (db' : D.Db) × (remove_token D db (user ∷ token ∷ args)
          ≡ returned db' success (codes "Token removed.\n"))
        × (authorize_request D db' req ≡ (if is_public_read req then granted else denied))
  unfolding remove_token authorize_request decide_header decide_lookup
  remove_token-revokes req law deleted bar of_user header =
      let (done_well, gone) = lookup-remove D db removed law deleted bar user token bar in
      (
        (remove_authorization D db removed).0,
        rw done_well refl,
        rw
            (
              header,
              strn_eq-append bearer token,
              of_user,
              gone,
              (str_eq_iff user user).1 refl,
              (str_eq_iff token token).1 refl,
            )
            refl,
      )
