-- ===== src/Webfinger.antt =====
-- src/handler/webfinger.c
pub mod Reply
pub mod Resource
pub mod Answers
use rs_serve.Base.{
  ℕ, ◌+◌, Bool, true, false, ◌&&◌, Option, none, some, List, [], ◌∷◌, ◌++◌, ◌==◌, Bytes, codes,
  length, drop, if◌then◌else◌,
}
use rs_serve.CString.{str_eq, strn_eq}
use rs_serve.Config.{Config, storage_api, auth_method, allow_origin, allow_headers}
use rs_serve.User.{Users, user_get_uid, uid_allowed}
use rs_serve.Request.{Method, get, options, other}
use rs_serve.Response.{
  Response, add_header, set_status, res_ok, res_nocontent, res_notfound, res_methnallowed,
  res_notimpl,
}
use rs_serve.Json.{
  Json, new_json, json_start_array, json_end_array, json_start_object, json_end_object,
  json_write_key, json_write_key_val,
}

-- sprintf(…, format, arg) for a format whose one conversion is `%s`.
unfoldable pub sprintf_s : Bytes → Bytes → Bytes
sprintf_s [] arg = []
sprintf_s (c ∷ []) arg = c ∷ []
sprintf_s (c ∷ d ∷ format) arg =
    let rest = c ∷ sprintf_s (d ∷ format) arg in
    if c == b'%' && d == b's' then arg ++ format else rest

-- lrdd_template of init_webfinger
unfoldable pub lrdd_template : Config → Bytes
lrdd_template cfg =
    cfg.scheme ++ (codes "://" ++ (cfg.hostname ++ codes "/.well-known/webfinger?resource={uri}"))

-- storage_uri_format, itself a format
unfoldable pub storage_uri_format : Config → Bytes
storage_uri_format cfg = cfg.scheme ++ (codes "://" ++ (cfg.hostname ++ codes "/storage/%s"))

-- The text before the first `@` and the text behind it.
unfoldable pub split_at_sign : Bytes → Option (Bytes × Bytes)
split_at_sign [] = none
split_at_sign (c ∷ s) =
    let longer = elim (split_at_sign s) as (λ _. Option (Bytes × Bytes)) [
      | none ↦ none
      | some (a, b) ↦ some (c ∷ a, b)
    ] in
    if c == b'@' then some ([], s) else longer

pub record Uris : Type 0 where
  pub storage_uri : Bytes
  pub auth_uri : Bytes

-- Behind `acct:`; `none` is the return value -1.
unfoldable pub process_account : Config → Users → Option (Bytes × Bytes) → Option Uris
unfolding sprintf_s storage_uri_format
process_account cfg users none = none
process_account cfg users (some (local_part, hostname)) =
    if str_eq hostname cfg.hostname && uid_allowed (user_get_uid users (some local_part))
    then some (record {
      storage_uri = sprintf_s (storage_uri_format cfg) local_part;
      auth_uri = sprintf_s cfg.auth_uri local_part;
    })
    else none

-- process_resource, on what evhtp_unescape_string made of the resource; `none` is a return value
-- other than 0.
unfoldable pub process_resource : Config → Users → Option Bytes → Option Uris
unfolding process_account split_at_sign
process_resource cfg users none = none
process_resource cfg users (some resource) =
    if strn_eq resource (codes "acct:") 5
    then process_account cfg users (split_at_sign (drop 5 resource))
    else none

-- ADD_CORS_HEADERS
abbrev pub add_cors_headers : Response → Response
add_cors_headers r =
    add_header
      (add_header (add_header r (codes "Access-Control-Allow-Origin") allow_origin)
        (codes "Access-Control-Allow-Headers") allow_headers)
      (codes "Access-Control-Allow-Methods") (codes "GET")

abbrev pub add_get_headers : Response → Response
add_get_headers r =
    add_header (add_cors_headers r) (codes "Content-Type") (codes "application/json")

-- The calls for the links of a user.
unfoldable pub write_links : Json → Bytes → Uris → Json
write_links json0 resource uris =
    let json1 = json_write_key_val json0 (codes "subject") resource in
    let json2 = json_start_object (json_start_array (json_write_key json1 (codes "links"))) in
    let json3 = json_write_key_val json2 (codes "rel") (codes "remotestorage") in
    let json4 = json_write_key_val json3 (codes "type") storage_api in
    let json5 = json_write_key_val json4 (codes "href") uris.storage_uri in
    let json6 = json_start_object (json_write_key json5 (codes "properties")) in
    let json7 = json_write_key_val json6 auth_method uris.auth_uri in
    let json8 = json_write_key_val json7 (codes "auth-method") auth_method in
    let json9 = json_write_key_val json8 (codes "auth-endpoint") uris.auth_uri in
    json_end_array (json_end_object (json_end_object json9))

-- The calls for the server itself.
unfoldable pub write_template : Json → Config → Json
write_template json0 cfg =
    let json1 = json_write_key_val json0 (codes "subject") cfg.hostname in
    let json2 = json_start_object (json_start_array (json_write_key json1 (codes "links"))) in
    let json3 = json_write_key_val json2 (codes "rel") (codes "lrdd") in
    let json4 = json_write_key_val json3 (codes "template") (lrdd_template cfg) in
    json_end_array (json_end_object json4)

-- A query as the handler sees it: the value of its `resource`, if any.
abbrev pub Query : Type 0
Query = Option Bytes

abbrev with_json : Response → ℕ → Json → Response
with_json r status json = record r { status = status; buffer_out = (json_end_object json).out }

unfoldable pub reply_resource : Json → Response → Bytes → Option Uris → Response
unfolding write_links
reply_resource json r resource none = with_json r res_notfound json
reply_resource json r resource (some uris) = with_json r res_ok (write_links json resource uris)

-- `unescape` is evhtp_unescape_string, `cells` what the new writer finds in memory.
module _ (cfg : Config) (users : Users) (unescape : Bytes → Option Bytes) (cells : ℕ → ℕ) where
  unfoldable pub handle_get : Response → Query → Response
  unfolding reply_resource write_template
  handle_get r none =
      let r' = add_get_headers r in
      with_json r' res_ok (write_template (json_start_object (new_json cells r'.buffer_out)) cfg)
  handle_get r (some resource) =
      let r' = add_get_headers r in
      reply_resource (json_start_object (new_json cells r'.buffer_out)) r' resource
        (process_resource cfg users (unescape resource))

  unfoldable pub handle_webfinger : Method → Query → Response → Response
  unfolding handle_get
  handle_webfinger get query r = handle_get r query
  handle_webfinger options query r = set_status (add_cors_headers r) res_nocontent
  handle_webfinger _ query r = set_status r res_methnallowed

-- The handler without --auth-uri.
unfoldable pub reject_webfinger : Response → Response
reject_webfinger r = set_status r res_notimpl
