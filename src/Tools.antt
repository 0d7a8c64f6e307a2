-- ===== src/Tools.antt =====
-- The command line tools src/tools/add-token.c, lookup-token.c, remove-token.c and list-tokens.c. Each
-- is its main(), on the arguments after the program's name; the database is opened before it is used
-- and closed after, as in Auth/Handle.
pub mod Scopes
pub mod Tokens
use rs_serve.Base.{ℕ, Option, none, some, List, [], ◌∷◌, ◌++◌, Bytes, codes, ◌==◌, if◌then◌else◌}
use rs_serve.CString.{str_eq}
use rs_serve.Auth.{Scope, Authorization}
use rs_serve.Auth.Database.{not_found, Outcome, Database}
use rs_serve.Auth.Store.{
  Status, success, error, database_error, aborted, Lookup, null, found, garbage, add_authorization,
  remove_authorization, lookup_authorization,
}
use rs_serve.Auth.Print.{print_authorization, Printed, print_authorizations}

-- How a tool ends.
pub data Run (Db : Type 0) : Type 0 where
  -- the database it leaves, its exit status and its stdout
  exited : Db → ℕ → Bytes → Run Db
  -- abort()
  crashed : Run Db
  -- it reads on behind an argument, or fields that were not set
  overrun : Run Db

-- `while(*sptr != ':') sptr++; *sptr++ = 0`: what is before the colon, and `sptr`. Without a colon the
-- loop leaves the argument.
unfoldable pub split_at_colon : Bytes → Option (Bytes × Bytes)
split_at_colon [] = none
split_at_colon (c ∷ cs) =
    let rest = split_at_colon cs in
    if c == b':'
    then some ([], cs)
    else elim rest [ none ↦ none | some parts ↦ some (c ∷ parts.0, parts.1) ]

abbrev pub root_scope : Bytes
root_scope = codes "root"

unfoldable pub scope_of : Bytes → Bytes → Scope
scope_of name mode = record {
  name = if str_eq name root_scope then [] else name;
  write = if str_eq mode (codes "rw") then 1 else 0;
}

infixl 5 ◌>>=◌
abbrev ◌>>=◌ {ℓ κ} : {A : Type ℓ} {B : Type κ} → Option A → (A → Option B) → Option B
none >>= f = none
some a >>= f = f a

unfoldable pub parse_scopes : List Bytes → Option (List Scope)
unfolding split_at_colon scope_of
parse_scopes [] = some []
parse_scopes (arg ∷ args) = do
  (name, mode) ← split_at_colon arg
  scopes ← parse_scopes args
  some (scope_of name mode ∷ scopes)

module _ (D : Database) where
  unfoldable pub after_add : Authorization → D.Db × Status → Run D.Db
  unfolding print_authorization
  after_add auth (db, aborted) = crashed
  after_add auth (db, _) = exited db 0 (print_authorization auth ++ codes "\n")

  unfoldable pub add_parsed : D.Db → Bytes → Bytes → Option (List Scope) → Run D.Db
  unfolding after_add
  add_parsed db user token none = overrun
  add_parsed db user token (some scopes) =
      let auth : Authorization = record { username = user; token = token; scopes = scopes } in
      after_add auth (add_authorization D db auth)

  -- add-token.c
  unfoldable pub add_token : D.Db → List Bytes → Run D.Db
  unfolding add_parsed
  add_token db (user ∷ token ∷ arg ∷ args) = add_parsed db user token (parse_scopes (arg ∷ args))
  add_token db _ = exited db 127 []

  unfoldable pub after_lookup : D.Db → Lookup → Run D.Db
  unfolding print_authorization
  after_lookup db (found auth) = exited db 0 (print_authorization auth ++ codes "\n")
  after_lookup db null = exited db 1 []
  after_lookup db garbage = overrun
  after_lookup db Lookup.aborted = crashed

  -- lookup-token.c
  unfoldable pub lookup_token : Bytes → D.Db → List Bytes → Run D.Db
  unfolding after_lookup
  lookup_token progname db (user ∷ token ∷ []) =
      after_lookup db (lookup_authorization D db user token)
  lookup_token progname db _ =
      exited db 127 (codes "Usage: " ++ (progname ++ codes " <username> <token>\n"))

-- What remove-token.c writes to stderr: `success == DB_NOTFOUND`, `success == 0`, or else.
unfoldable pub removal_message : Status → Bytes
removal_message success = codes "Token removed.\n"
removal_message (database_error not_found) = codes "Token not found!\n"
removal_message _ = codes "Error removing token!\n"

-- `returned` carries the result of remove_authorization, which main returns, and stderr.
pub data Removal (Db : Type 0) : Type 0 where
  wrong_usage : Removal Db
  returned : Db → Status → Bytes → Removal Db

-- remove-token.c; the scopes stay unset, and remove_authorization does not read them
unfoldable pub remove_token : (D : Database) → D.Db → List Bytes → Removal D.Db
unfolding removal_message
remove_token D db (user ∷ token ∷ args) =
    let auth : Authorization = record { username = user; token = token; scopes = [] } in
    let (db', result) = remove_authorization D db auth in
    returned db' result (removal_message result)
remove_token D db _ = wrong_usage

-- list-tokens.c
unfoldable pub list_tokens : (D : Database) → D.Db → List Bytes → Printed
unfolding print_authorizations
list_tokens D db [] = print_authorizations D db none
list_tokens D db (user ∷ args) = print_authorizations D db (some user)
