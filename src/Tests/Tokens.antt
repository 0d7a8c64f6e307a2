-- ===== src/Tests/Tokens.antt =====
-- Tokens, from the tools and the web server to requests: src/tools/, auth/bindings/auth.cc and
-- src/common/auth.c.
use rs_serve.Base.{
  ◌≡◌, refl, none, [], ◌∷◌, ◌++◌, Bytes, codes, arith, map, if◌then◌else◌, if-holds, ◌==◌,
}
use rs_serve.CString.{str_eq}
use rs_serve.Auth.{Scope, Authorization, IsCString, IsAuthorization}
use rs_serve.Auth.Codec.{unpack_authorization, pack_authorization}
use rs_serve.Auth.Database.InMemory.{in_memory, in_memory-IsDatabase, find, delete}
use rs_serve.Auth.Store.{
  success, found, add_authorization, lookup_authorization, calls, list_authorizations, make_key,
}
use rs_serve.Auth.Store.Laws.{HasNoBar}
use rs_serve.Auth.Store.Refines.{
  Tokens, adds, updates, add_step, Steps, stop, step, Refines, updates-Refines,
}
use rs_serve.Auth.Print.{print_authorization, printed, print_authorizations}
use rs_serve.Auth.Print.Listing.{join, print_authorizations-join}
use rs_serve.Authorize.{granted, denied, is_public_read, authorize_request}
use rs_serve.Tools.{exited, parse_scopes, add_token, returned, remove_token}
use rs_serve.Tools.Tokens.{CanAdd, add_token-granted, remove_token-revokes}
use rs_serve.Bindings.{V8, undefined, returns, scope_of_property, add, lookup}
use rs_serve.Bindings.Agree.{IsV8, authorization_of, lookup-returns_added, add-add_token}
use rs_serve.Tests.Requests.{write_request, store, bar, write_permits}

pub foo_HasNoBar : HasNoBar (codes "foo")
foo_HasNoBar = omega arith

abbrev contacts : Scope
contacts = record { name = codes "contacts"; write = 1 }

can_add : CanAdd in_memory [] (codes "foo") (codes "bar") (codes "contacts:rw") [] (contacts ∷ [])
unfolding parse_scopes str_eq
can_add = record {
  user_text = omega arith;
  token_text = omega arith;
  args_text = (omega arith, tt);
  no_bar = foo_HasNoBar;
  parsed = refl;
  few = omega arith;
  small = unfold rs_serve.Auth.Codec.le32 in omega arith;
  stored = refl;
}

add_token-granted_example :
    (db' : in_memory.Db) × (out : Bytes) × (add_token in_memory []
        (codes "foo" ∷ codes "bar" ∷ codes "contacts:rw" ∷ [])
      ≡ exited db' 0 out)
    × (authorize_request in_memory db' write_request ≡ granted)
add_token-granted_example =
    add_token-granted in_memory [] (codes "foo") (codes "bar") (codes "contacts:rw") []
      (contacts ∷ []) write_request in_memory-IsDatabase can_add refl refl write_permits

remove_token-revokes_example :
    (db' : in_memory.Db) × (remove_token in_memory store (codes "foo" ∷ codes "bar" ∷ [])
      ≡ returned db' success (codes "Token removed.\n"))
    × (authorize_request in_memory db' write_request
        ≡ (if is_public_read write_request then granted else denied))
remove_token-revokes_example =
    remove_token-revokes in_memory store (codes "foo") (codes "bar") [] write_request
      in_memory-IsDatabase (unfold delete find make_key str_eq in refl) foo_HasNoBar refl refl

-- No token is stored, and then one.
abbrev pub no_tokens : Tokens
no_tokens user token = none

pub empty-Refines : Refines in_memory [] no_tokens
unfolding lookup_authorization find
empty-Refines user token = refl

pub bar-IsAuthorization : IsAuthorization bar
bar-IsAuthorization = omega arith

added : Steps in_memory [] (adds bar ∷ []) (add_authorization in_memory [] bar).0
added =
    step [] (add_authorization in_memory [] bar).0 (add_authorization in_memory [] bar).0 (adds bar)
      []
      (add_step [] bar bar-IsAuthorization foo_HasNoBar
        (unfold rs_serve.Auth.Codec.le32 in omega arith) refl)
      (stop (add_authorization in_memory [] bar).0)

updates-Refines_example :
    Refines in_memory (add_authorization in_memory [] bar).0 (updates (adds bar ∷ []) no_tokens)
updates-Refines_example =
    updates-Refines in_memory [] (add_authorization in_memory [] bar).0 (adds bar ∷ []) no_tokens
      in_memory-IsDatabase added empty-Refines

bar_listed : list_authorizations in_memory store none ≡ calls (map found (bar ∷ []))
unfolding list_authorizations unpack_authorization
bar_listed = refl

print_authorizations-join_example :
    print_authorizations in_memory store none ≡ printed (codes "[" ++ join 0 (bar ∷ []))
print_authorizations-join_example =
    print_authorizations-join in_memory store none
      (codes "foo\0bar\0" ++ (1 ∷ 0 ∷ 0 ∷ 0 ∷ (codes "contacts\0" ++ (1 ∷ [])))) [] (bar ∷ []) refl
      bar_listed

print_test :
    print_authorization bar
    ≡ codes
        "{\n  \"user\": \"foo\",\n  \"token\": \"bar\",\n  \"scopes\": {\n    \"contacts\": \"rw\"\n  }\n}"
unfolding print_authorization
print_test = refl

-- The text before the first NUL.
abbrev until_nul : Bytes → Bytes
until_nul [] = []
until_nul (c ∷ cs) = let rest = until_nul cs in if c == 0 then [] else c ∷ rest

until_nul-IsCString : (s : Bytes) → IsCString (until_nul s)
until_nul-IsCString [] = tt
until_nul-IsCString (c ∷ cs) =
    if-holds IsCString (c == 0) [] (c ∷ until_nul cs) (λ e. tt)
      (λ e. (ground (arith, e), until_nul-IsCString cs))

-- Values of V8 that are texts, or the object `{ root: "r", contacts: "rw" }`.
pub data Js : Type 0 where
  text : Bytes → Js
  scope_object : Js

abbrev js : V8
js = record {
  Value = Js;
  ascii = λ v. elim v [ text s ↦ until_nul s | scope_object ↦ codes "[object Object]" ];
  properties = λ v. elim v [
    | text s ↦ []
    | scope_object ↦
        (text (codes "root"), text (codes "r")) ∷ (text (codes "contacts"), text (codes "rw")) ∷ []
  ];
}

js-IsV8 : IsV8 js
js-IsV8 = record { ascii_text = from }
  where
    from : (v : Js) → IsCString (js.ascii v)
    from (text s) = until_nul-IsCString s
    from scope_object = omega arith

abbrev user : Js
user = text (codes "foo")

abbrev token : Js
token = text (codes "bar")

lookup-returns_added_example :
    (db' : in_memory.Db) × (add js in_memory [] (user ∷ token ∷ scope_object ∷ []) ≡ undefined db')
    × (lookup js in_memory db' (user ∷ token ∷ [])
        ≡ returns db' (record {
          username = codes "foo";
          token = codes "bar";
          scopes = ([], codes "r") ∷ (codes "contacts", codes "rw") ∷ [];
        }))
unfolding str_eq
lookup-returns_added_example =
    lookup-returns_added js in_memory [] user token scope_object [] [] js-IsV8 in_memory-IsDatabase
      foo_HasNoBar (omega arith) (unfold rs_serve.Auth.Codec.le32 scope_of_property in omega arith)
      refl

add-add_token_example :
    (db' : in_memory.Db) × (add js in_memory [] (user ∷ token ∷ scope_object ∷ []) ≡ undefined db')
    × (add_token in_memory []
          (codes "foo" ∷ codes "bar" ∷ codes "root:r" ∷ codes "contacts:rw" ∷ [])
        ≡ exited db' 0 (
            print_authorization (authorization_of js in_memory [] user token scope_object)
            ++ codes "\n"))
add-add_token_example =
    add-add_token js in_memory [] user token scope_object [] (text (codes "root"), text (codes "r"))
      ((text (codes "contacts"), text (codes "rw")) ∷ []) refl (omega arith, (omega arith, tt))
      (unfold rs_serve.Auth.Codec.le32 scope_of_property str_eq in omega arith)
