-- ===== src/Tests/Requests.antt =====
-- Authorization of requests: src/handler/auth.c.
use rs_serve.Base.{
  ◌≡◌, ◌↔◌, ◌⊎◌, inl, inr, refl, Bytes, codes, ◌++◌, ◌∷◌, [], arith, true, some, none, Option,
}
use rs_serve.CString.{str_eq, strn_eq, strstr}
use rs_serve.CString.Laws.{strstr-none}
use rs_serve.Request.{Request, Method, Header, get, put, authorization}
use rs_serve.Auth.{Scope, Authorization}
use rs_serve.Auth.Codec.{pack_authorization}
use rs_serve.Auth.Database.InMemory.{in_memory, find}
use rs_serve.Auth.Store.{make_key, lookup_authorization, found}
use rs_serve.DiskPath.{parent_segment, double_slash, make_disk_path}
use rs_serve.DiskPath.Clean.{IsClean}
use rs_serve.Authorize.{match_scope, any_scope, is_public_read, granted, denied, authorize_request}
use rs_serve.Authorize.Scopes.{Covers, Permits, SomePermits, match_scope_iff}
use rs_serve.Authorize.Grants.{PublicRead, TokenPermits, granted-needs}
use rs_serve.Authorize.Bypass.{public_read_escapes, scope_escapes, location}

abbrev contacts : Scope
contacts = record { name = codes "contacts"; write = 1 }

abbrev pub bar : Authorization
bar = record { username = codes "foo"; token = codes "bar"; scopes = contacts ∷ [] }

-- A database that holds the authorization.
abbrev pub store : in_memory.Db
store =
    (codes "foo|bar", codes "foo\0bar\0" ++ (1 ∷ 0 ∷ 0 ∷ 0 ∷ (codes "contacts\0" ++ (1 ∷ [])))) ∷ []

abbrev bearer_header : Header → Option Bytes
bearer_header authorization = some (codes "Bearer bar")
bearer_header _ = none

abbrev no_header : Header → Option Bytes
no_header authorization = none
no_header _ = none

abbrev pub write_request : Request
write_request = record {
  method = put;
  user = codes "foo";
  path = codes "/contacts/bob";
  file = some (codes "bob");
  headers_in = bearer_header;
  body = codes "hi";
}

abbrev public_request : Request
public_request = record {
  method = get;
  user = codes "foo";
  path = codes "/public/.//./etc";
  file = some (codes "etc");
  headers_in = no_header;
  body = [];
}

write_granted : authorize_request in_memory store write_request ≡ granted
unfolding authorize_request any_scope is_public_read str_eq strn_eq lookup_authorization find
    make_key rs_serve.Auth.Codec.unpack_authorization
write_granted = refl

anonymous_write_denied :
    authorize_request in_memory store (record write_request { headers_in = no_header }) ≡ denied
unfolding authorize_request is_public_read strn_eq
anonymous_write_denied = refl

write_covered : Covers (codes "contacts") (codes "/contacts/bob")
write_covered = inr (b'/', codes "bob", refl)

match_scope_iff_example :
    (match_scope contacts write_request ≡ true) ↔ Permits contacts write_request
match_scope_iff_example = match_scope_iff contacts write_request

granted-needs_example : TokenPermits in_memory store write_request ⊎ PublicRead write_request
granted-needs_example = granted-needs in_memory store write_request write_granted

bar_found : lookup_authorization in_memory store (codes "foo") (codes "bar") ≡ found bar
unfolding lookup_authorization find make_key str_eq rs_serve.Auth.Codec.unpack_authorization
bar_found = refl

pub write_permits : SomePermits bar.scopes write_request
write_permits = inl (record { covers = write_covered; mode = inl (omega arith) })

abbrev pub read_request : Request
read_request = record write_request { method = get }

-- The token may write the path, so it permits every method.
pub permitted_method :
    (m : Method) → TokenPermits in_memory store (record write_request { method = m })
permitted_method m = record {
  token = codes "bar";
  header = refl;
  auth = bar;
  stored = bar_found;
  permits = inl (record { covers = write_covered; mode = inl (omega arith) });
}

pub write_permitted : TokenPermits in_memory store write_request
write_permitted = record {
  token = codes "bar";
  header = refl;
  auth = bar;
  stored = bar_found;
  permits = write_permits;
}

etc_IsClean : IsClean (b'/' ∷ codes "etc")
etc_IsClean = (
  strstr-none (codes "/etc") parent_segment (unfold strstr in refl),
  strstr-none (codes "/etc") double_slash (unfold strstr in refl),
)

public_read_escapes_example :
    (authorize_request in_memory [] public_request ≡ granted)
    × ((make_disk_path (codes "storage") (codes "foo") (codes "/public/.//./etc")).path
        ≡ codes "/public/../etc")
    × (location (make_disk_path (codes "storage") (codes "foo") (codes "/public/.//./etc")).path
        ≡ location (codes "/etc"))
public_read_escapes_example =
    public_read_escapes in_memory [] (codes "storage") public_request (codes "etc") refl refl refl
      refl etc_IsClean

abbrev con : Scope
con = record { name = codes "con"; write = 1 }

abbrev joined_request : Request
joined_request = record write_request { path = codes "/con//tacts/etc" }

scope_escapes_example :
    (match_scope con joined_request ≡ true)
    × ((make_disk_path (codes "storage") (codes "foo") (codes "/con//tacts/etc")).path
        ≡ codes "/contacts/etc")
    × (¬ Covers
        (codes "con")
        (make_disk_path (codes "storage") (codes "foo") (codes "/con//tacts/etc")).path)
scope_escapes_example =
    scope_escapes con (codes "storage") joined_request (codes "tacts") (codes "etc")
      (omega arith, λ e. cc) (omega arith, λ e. cc) etc_IsClean refl (inr (omega arith))
