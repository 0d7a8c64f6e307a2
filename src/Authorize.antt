-- ===== src/Authorize.antt =====
-- src/handler/auth.c: may a request touch its path?
pub mod Scopes
pub mod Grants
pub mod Bypass
use rs_serve.Base.{
  ℕ, suc, Bool, true, false, not, ◌&&◌, ◌||◌, Option, none, some, List, [], ◌∷◌, ◌++◌, ◌==◌, Bytes,
  codes, length, drop, get_elem?, if◌then◌else◌,
}
use rs_serve.CString.{str_eq, strn_eq}
use rs_serve.Request.{Request, Header, authorization, is_read, is_directory}
use rs_serve.Auth.{Scope, Authorization}
use rs_serve.Auth.Database.{Database}
use rs_serve.Auth.Store.{Lookup, null, found, garbage, lookup_authorization}

-- `s[i] == c`
abbrev pub has_byte : Bytes → ℕ → ℕ → Bool
has_byte s i c = elim (get_elem? s i) [ none ↦ false | some d ↦ d == c ]

-- The path test. The path begins with a slash, which `file_path + 1` skips.
unfoldable pub covers_path : Scope → Bytes → Bool
covers_path scope file_path =
    str_eq scope.name []
    || (strn_eq (drop 1 file_path) scope.name (length scope.name)
        && has_byte file_path (suc (length scope.name)) b'/')

-- match_scope(scope, req) == 0
unfoldable pub match_scope : Scope → Request → Bool
unfolding covers_path
match_scope scope req = covers_path scope req.path && (not (scope.write == 0) || is_read req)

unfoldable pub any_scope : List Scope → Request → Bool
unfolding match_scope
any_scope [] req = false
any_scope (scope ∷ scopes) req = match_scope scope req || any_scope scopes req

-- authorize_request returns 0 or -1; `undefined` is the use of a garbage record, and `aborted` the
-- abort() of lookup_authorization.
pub data Decision : Type 0 where
  granted denied undefined aborted : Decision

abbrev pub bearer : Bytes
bearer = codes "Bearer "

abbrev pub public_prefix : Bytes
public_prefix = codes "/public/"

-- Public reads on files (not directories) are allowed, nothing else.
unfoldable pub is_public_read : Request → Bool
is_public_read req = strn_eq req.path public_prefix 8 && is_read req && not (is_directory req)

abbrev public_or_denied : Request → Decision
public_or_denied req = if is_public_read req then granted else denied

unfoldable pub decide_lookup : Lookup → Request → Decision
decide_lookup null req = public_or_denied req
decide_lookup (found auth) req = if any_scope auth.scopes req then granted else public_or_denied req
decide_lookup garbage req = undefined
decide_lookup Lookup.aborted req = aborted

unfoldable pub decide_header : (D : Database) → D.Db → Request → Option Bytes → Decision
unfolding decide_lookup
decide_header D db req none = public_or_denied req
decide_header D db req (some auth_header) =
    if strn_eq auth_header bearer 7
    then decide_lookup (lookup_authorization D db req.user (drop 7 auth_header)) req
    else public_or_denied req

unfoldable pub authorize_request : (D : Database) → D.Db → Request → Decision
unfolding decide_header
authorize_request D db req = decide_header D db req (req.headers_in authorization)
