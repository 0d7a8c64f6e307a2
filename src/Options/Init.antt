-- ===== src/Options/Init.antt =====
-- init_config in src/config.c: its loop, and what follows it.
use rs_serve.Base.{
  Bool, true, false, ◌||◌, Option, none, some, List, [], ◌∷◌, Bytes, codes, ◌==◌, if◌then◌else◌,
}
use rs_serve.Config.{Config}
use rs_serve.Options.{
  Opt, System, Settings, default_settings, Result, configured, Turn, continues, ends, exit_failure,
}
use rs_serve.Options.Apply.{exit_with, apply_option}

unfoldable pub is_null : Option Bytes → Bool
is_null none = true
is_null (some text) = false

-- rs_home_serve_root == NULL
unfoldable pub or_default_root : Settings → Option Bytes → Settings
or_default_root s none = record s {
  rs_home_serve_root = some (codes "storage");
  rs_home_serve_root_len = 7;
}
or_default_root s (some root) = s

unfoldable pub or_dont_log_debug : Settings → Option Bool → Settings
or_dont_log_debug s none = record s { current_log_debug = some false }
or_dont_log_debug s (some logs) = s

-- if(RS_USE_SSL): the port; none for the exit
unfoldable pub checked_ssl : Settings → Option Settings
unfolding is_null
checked_ssl s =
    if s.rs_use_ssl
    then (if is_null s.rs_ssl_cert_path || is_null s.rs_ssl_key_path
        then none
        else some (if s.rs_port == 80 then record s { rs_port = 443 } else s))
    else some s

unfoldable pub checked_auth_uri : Settings → Settings
unfolding is_null
checked_auth_uri s = if is_null s.rs_auth_uri then record s { rs_webfinger_enabled = false } else s

module _ (S : System) where
  -- What follows the loop.
  unfoldable pub finish : S.World → Settings → Result S.World
  unfolding exit_with or_default_root or_dont_log_debug checked_ssl checked_auth_uri
  finish w s =
      let s1 = or_default_root s s.rs_home_serve_root in
      if s1.rs_stop_other
      then exit_with S w s1 exit_failure
      else let s2 = or_dont_log_debug s1 s1.current_log_debug in
        elim (checked_ssl s2) [
          | none ↦ exit_with S w s2 exit_failure
          | some s3 ↦ configured w (checked_auth_uri s3)
        ]

  abbrev pub after_turn : Turn S.World → (S.World → Settings → Result S.World) → Result S.World
  after_turn (continues w s) next = next w s
  after_turn (ends result) next = result

  unfoldable pub loop : S.World → Settings → List Opt → Result S.World
  unfolding apply_option finish
  loop w s [] = finish w s
  loop w s (opt ∷ opts) = after_turn (apply_option S w s opt) (λ w' s'. loop w' s' opts)

  unfoldable pub init_config : S.World → List Opt → Result S.World
  unfolding loop
  init_config w opts = loop w default_settings opts

-- What the handlers read of the variables; RS_AUTH_URI is read only where it is set.
abbrev pub text_of : Option Bytes → Bytes
text_of none = []
text_of (some text) = text

unfoldable pub config_of : Settings → Config
config_of s = record {
  scheme = s.rs_scheme;
  hostname = s.rs_hostname;
  auth_uri = text_of s.rs_auth_uri;
  home_serve_root = text_of s.rs_home_serve_root;
  experimental = s.rs_experimental;
  use_xattr = s.rs_use_xattr;
}
