-- ===== src/Bindings.antt =====
-- The functions that auth/bindings/auth.cc gives to the authorization web server. V8 is a parameter; the
-- database is opened before it is used, as in Auth/Handle.
pub mod Agree
use rs_serve.Base.{
  ℕ, ◌^◌, Option, none, some, List, [], ◌∷◌, ◌++◌, map, Bytes, codes, ◌==◌, if◌then◌else◌, length,
  ltb,
}
use rs_serve.CString.{str_eq}
use rs_serve.Auth.{Scope, Authorization}
use rs_serve.Auth.Database.{Database}
use rs_serve.Auth.Store.{
  Status, success, aborted, Lookup, null, found, garbage, Listing, calls, add_authorization,
  remove_authorization, lookup_authorization, list_authorizations,
}
use rs_serve.Auth.Store

-- What the bindings use of V8: a value as ASCII text, and the properties of the object that a value is
-- turned into, their names with their values.
pub record V8 : Type 1 where
  pub Value : Type 0
  pub ascii : Value → Bytes
  pub properties : Value → List (Value × Value)

-- The object that auth_to_object builds; `scopes` are the calls of Set, in their order.
pub record Object : Type 0 where
  pub username : Bytes
  pub token : Bytes
  pub scopes : List (Bytes × Bytes)

-- How a call ends; `A` is what it returns, `undefined` aside.
pub data Call {ℓ κ} (Db : Type ℓ) (A : Type κ) : Type (ℓ ⊔ κ) where
  throws : Bytes → Call Db A
  undefined : Db → Call Db A
  returns : Db → A → Call Db A
  -- abort()
  crashed : Call Db A
  -- fields are read that were not set
  overrun : Call Db A

abbrev pub wrong_number : Bytes
wrong_number = codes "Wrong number of arguments"

abbrev pub set_scope : Scope → Bytes × Bytes
set_scope s = (s.name, if s.write == 0 then codes "r" else codes "rw")

-- The loop counts with an `int`: a count from 2 ^ 31 on is negative.
unfoldable pub auth_to_object : Authorization → Object
auth_to_object auth = record {
  username = auth.username;
  token = auth.token;
  scopes = if ltb (length auth.scopes) (2 ^ 31) then map set_scope auth.scopes else [];
}

module _ (V : V8) (D : Database) where
  unfoldable pub scope_of_property : V.Value × V.Value → Scope
  scope_of_property (key, value) = record {
    name = if str_eq (V.ascii key) (codes "root") then [] else V.ascii key;
    write = if str_eq (V.ascii value) (codes "rw") then 1 else 0;
  }

  unfoldable pub after_add : D.Db × Status → Call D.Db Object
  after_add (db, aborted) = crashed
  after_add (db, _) = undefined db

  -- Add
  unfoldable pub add : D.Db → List V.Value → Call D.Db Object
  unfolding after_add scope_of_property
  add db (user ∷ token ∷ scopes ∷ args) = after_add (
      add_authorization D db (record {
        username = V.ascii user;
        token = V.ascii token;
        scopes = map scope_of_property (V.properties scopes);
      }))
  add db _ = throws wrong_number

  -- Remove
  unfoldable pub remove : D.Db → List V.Value → Call D.Db Object
  remove db (user ∷ token ∷ args) =
      undefined
        (remove_authorization D db
          (record { username = V.ascii user; token = V.ascii token; scopes = [] })).0
  remove db _ = throws wrong_number

  unfoldable pub after_lookup : D.Db → Lookup → Call D.Db Object
  unfolding auth_to_object
  after_lookup db (found auth) = returns db (auth_to_object auth)
  after_lookup db null = undefined db
  after_lookup db garbage = overrun
  after_lookup db Lookup.aborted = crashed

  -- Lookup
  unfoldable pub lookup : D.Db → List V.Value → Call D.Db Object
  unfolding after_lookup
  lookup db (user ∷ token ∷ args) =
      after_lookup db (lookup_authorization D db (V.ascii user) (V.ascii token))
  lookup db _ = throws wrong_number

  -- add_auth_to_list, for one call of the callback and those after it
  unfoldable pub add_auth_to_list :
      D.Db → Lookup → Call D.Db (List Object) → Call D.Db (List Object)
  unfolding auth_to_object
  add_auth_to_list db (found auth) (returns db' objects) =
      returns db' (auth_to_object auth ∷ objects)
  add_auth_to_list db (found auth) later = later
  add_auth_to_list db _ later = overrun

  unfoldable pub add_all : D.Db → List Lookup → Call D.Db (List Object)
  unfolding add_auth_to_list
  add_all db [] = returns db []
  add_all db (l ∷ lookups) = add_auth_to_list db l (add_all db lookups)

  unfoldable pub listed : D.Db → Listing → Call D.Db (List Object)
  unfolding add_all
  listed db (calls lookups) = add_all db lookups
  listed db rs_serve.Auth.Store.Listing.exits = crashed

  -- List
  unfoldable pub list : D.Db → List V.Value → Call D.Db (List Object)
  unfolding listed
  list db [] = listed db (list_authorizations D db none)
  list db (user ∷ args) = listed db (list_authorizations D db (some (V.ascii user)))
