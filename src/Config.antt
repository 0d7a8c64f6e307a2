-- ===== src/Config.antt =====
-- The options of src/config.h that the handlers read, as src/config.c leaves them.
use rs_serve.Base.{ℕ, Bool, Bytes, codes}

pub record Config : Type 0 where
  pub scheme : Bytes
  pub hostname : Bytes
  -- RS_AUTH_URI, a format with one `%s`; webfinger is rejected without it
  pub auth_uri : Bytes
  -- RS_HOME_SERVE_ROOT
  pub home_serve_root : Bytes
  pub experimental : Bool
  pub use_xattr : Bool

-- RS_MIN_UID
abbrev pub min_uid : ℕ
min_uid = 1000

abbrev pub storage_api : Bytes
storage_api = codes "draft-dejong-remotestorage-01"

abbrev pub auth_method : Bytes
auth_method = codes "http://tools.ietf.org/html/rfc6749#section-4.2"

-- The values of the CORS headers.
abbrev pub allow_origin : Bytes
allow_origin = codes "*"

abbrev pub allow_headers : Bytes
allow_headers = codes "Authorization, Content-Type, If-Match, If-None-Match, Origin"

abbrev pub allow_methods : Bytes
allow_methods = codes "HEAD, GET, PUT, DELETE"

abbrev pub expose_headers : Bytes
expose_headers = codes "Content-Type, Content-Length, ETag"
