-- ===== src/Auth/Store/Refines.antt =====
-- The store of src/common/auth.c against a map from users and tokens to authorizations.
use rs_serve.Base.{
  ◌<◌, ◌^◌, ◌≡◌, Option, none, some, List, [], ◌∷◌, Bytes, length, ◌&&◌, if◌then◌else◌, apply-if,
}
use rs_serve.CString.{str_eq}
use rs_serve.Auth.{Authorization, IsAuthorization}
use rs_serve.Auth.Database.{done, Database, IsDatabase}
use rs_serve.Auth.Store.{
  Lookup, null, found, add_authorization, remove_authorization, lookup_authorization,
}
use rs_serve.Auth.Store.Laws.{HasNoBar, value, key, lookup-add, lookup-remove}

-- The abstract store.
abbrev pub Tokens : Type 0
Tokens = Bytes → Bytes → Option Authorization

pub data Command : Type 0 where
  adds : Authorization → Command
  removes : Authorization → Command

-- What a command sets for the user and the token of its authorization.
abbrev pub entry : Command → Option Authorization
entry (adds a) = some a
entry (removes a) = none

abbrev pub subject : Command → Authorization
subject (adds a) = a
subject (removes a) = a

-- The command sets one entry and keeps all others.
abbrev pub update : Command → Tokens → Tokens
update c tokens user token =
    if str_eq (subject c).username user && str_eq (subject c).token token
    then entry c
    else tokens user token

-- All commands, the first one first.
abbrev pub updates : List Command → Tokens → Tokens
updates [] tokens = tokens
updates (c ∷ commands) tokens = updates commands (update c tokens)

-- A call of add_authorization or remove_authorization with which the database succeeds.
pub data Step (D : Database) : D.Db → Command → D.Db → Type 0 where
  add_step :
      (db : D.Db) (a : Authorization)
      → IsAuthorization a
      → HasNoBar a.username
      → length (value D db a) < 2 ^ 32
      → (D.put db (key D db a) (value D db a)).1 ≡ done tt
      → Step D db (adds a) (add_authorization D db a).0
  remove_step :
      (db : D.Db) (a : Authorization)
      → HasNoBar a.username
      → (D.del db (key D db a)).1 ≡ done tt
      → Step D db (removes a) (remove_authorization D db a).0

pub data Steps (D : Database) : D.Db → List Command → D.Db → Type 0 where
  stop : (db : D.Db) → Steps D db [] db
  step :
      (db db' db'' : D.Db) (c : Command) (commands : List Command)
      → Step D db c db'
      → Steps D db' commands db''
      → Steps D db (c ∷ commands) db''

abbrev pub lookup_of : Option Authorization → Lookup
lookup_of none = null
lookup_of (some a) = found a

-- A user name that holds no bar.
pub record UserName : Type 0 where
  pub name : Bytes
  pub no_bar : HasNoBar name

-- Every lookup for such a user gives the entry of the map.
abbrev pub Refines : (D : Database) → D.Db → Tokens → Type 0
Refines D db tokens =
    (user : UserName) (token : Bytes)
    → lookup_authorization D db user.name token ≡ lookup_of (tokens user.name token)

update-Refines :
    (D : Database) (db db' : D.Db) (c : Command) (tokens : Tokens)
    → IsDatabase D
    → Step D db c db'
    → Refines D db tokens
    → Refines D db' (update c tokens)
update-Refines D _ _ _ tokens law (add_step db a valid bar small stored) h user token = rw (
  lookup-add D db a law valid small stored bar user.name token user.no_bar,
  h user token,
  apply-if lookup_of (str_eq a.username user.name && str_eq a.token token) (some a)
      (tokens user.name token),
)
update-Refines D _ _ _ tokens law (remove_step db a bar deleted) h user token = rw (
  (lookup-remove D db a law deleted bar user.name token user.no_bar).1,
  h user token,
  apply-if lookup_of (str_eq a.username user.name && str_eq a.token token) none
      (tokens user.name token),
)

-- A sequence of successful calls of add_authorization and remove_authorization, with well-formed
-- authorizations of less than 2 ^ 32 bytes and no bar in their user names, takes a database that refines
-- a map to one that refines the map with the same entries set and cleared, in the same order.
pub updates-Refines :
    (D : Database) (db db' : D.Db) (commands : List Command) (tokens : Tokens)
    → IsDatabase D
    → Steps D db commands db'
    → Refines D db tokens
    → Refines D db' (updates commands tokens)
updates-Refines D _ _ _ tokens law (stop db) h = h
updates-Refines D _ _ _ tokens law (step db db1 db2 c commands s steps) h =
    updates-Refines D db1 db2 commands (update c tokens) law steps
      (update-Refines D db db1 c tokens law s h)
