-- ===== src/Options/Ready.antt =====
-- Consistent variables of src/config.h, and the steps of init_config that follow its loop.
use rs_serve.Base.{
  ◌≡◌, ◌≢◌, refl, sym, ◌∙◌, inl, inr, ◌⊎◌, Bool, false, not, Option, none, some, codes, Bytes,
  length, ◌==◌, if◌then◌else◌, if-holds, arith, ==_iff, ◌||◌,
}
use rs_serve.Options.{Settings, http, https}
use rs_serve.Options.Init.{
  is_null, or_default_root, or_dont_log_debug, checked_ssl, checked_auth_uri, text_of,
}
use rs_serve.Options.Loop.{IsRead}

-- SSL is not used, or there are a certificate and a key, and the port is not the one of http.
abbrev pub HasSslFiles : Settings → Type 0
HasSslFiles s =
    (s.rs_use_ssl ≡ false)
    ⊎ ((is_null s.rs_ssl_cert_path ≡ false)
        × (is_null s.rs_ssl_key_path ≡ false)
        × (s.rs_port ≢ 80))

-- The variables are consistent, whatever the options were.
pub record IsConfigured (s : Settings) : Type 0 where
  pub root : Bytes
  pub root_set : s.rs_home_serve_root ≡ some root
  pub root_len : s.rs_home_serve_root_len ≡ length root
  pub auth_uri_len : s.rs_auth_uri_len ≡ length (text_of s.rs_auth_uri)
  pub webfinger : s.rs_webfinger_enabled ≡ not (is_null s.rs_auth_uri)
  pub not_stopping : s.rs_stop_other ≡ false
  pub scheme : s.rs_scheme ≡ (if s.rs_use_ssl then https else http)
  pub ssl_files : HasSslFiles s
  pub logs : s.current_log_debug ≢ none
  pub pid_file_held : s.pid_file_open ≡ not (is_null s.rs_pid_file_path)

-- The last step, on variables that are ready but for webfinger.
pub checked_auth_uri-IsConfigured :
    (s : Settings) (root : Bytes)
    → IsRead s
    → s.rs_home_serve_root ≡ some root
    → s.rs_stop_other ≡ false
    → HasSslFiles s
    → s.current_log_debug ≢ none
    → IsConfigured (checked_auth_uri s)
unfolding checked_auth_uri
checked_auth_uri-IsConfigured s root r set not_stopping files logs =
    if-holds IsConfigured (is_null s.rs_auth_uri) (record s { rs_webfinger_enabled = false }) s
      (λ e. record {
        root = root;
        root_set = set;
        root_len = rw set at r.root_len;
        auth_uri_len = r.auth_uri_len;
        webfinger = rw e refl;
        not_stopping = not_stopping;
        scheme = r.scheme;
        ssl_files = files;
        logs = logs;
        pid_file_held = r.pid_file_held;
      })
      (λ e. record {
        root = root;
        root_set = set;
        root_len = rw set at r.root_len;
        auth_uri_len = r.auth_uri_len;
        webfinger = rw e r.webfinger;
        not_stopping = not_stopping;
        scheme = r.scheme;
        ssl_files = files;
        logs = logs;
        pid_file_held = r.pid_file_held;
      })

abbrev pub Holds : (Settings → Type 0) → Option Settings → Type 0
Holds Q none = Unit
Holds Q (some s) = Q s

or_false : (a b : Bool) → (a || b) ≡ false → (a ≡ false) × (b ≡ false)
or_false a b h = ground arith

pub checked_ssl-Holds :
    (Q : Settings → Type 0) (s : Settings)
    → (HasSslFiles s → Q s)
    → (HasSslFiles (record s { rs_port = 443 }) → Q (record s { rs_port = 443 }))
    → Holds Q (checked_ssl s)
unfolding checked_ssl
checked_ssl-Holds Q s h h' =
    if-holds (Holds Q) s.rs_use_ssl _ (some s)
      (λ ssl_used.
        if-holds (Holds Q) (is_null s.rs_ssl_cert_path || is_null s.rs_ssl_key_path) none _
          (λ missing. tt)
          (λ present.
            let (cert, key) =
              or_false (is_null s.rs_ssl_cert_path) (is_null s.rs_ssl_key_path) present in
            if-holds (λ s'. Q s') (s.rs_port == 80) (record s { rs_port = 443 }) s
              (λ default_port. h' (inr (cert, key, omega arith)))
              (λ other_port. h (inr (cert, key, ground (arith, ==_iff s.rs_port 80))))))
      (λ no_ssl. h (inl no_ssl))

pub or_default_root-IsRead :
    (s : Settings) (o : Option Bytes)
    → s.rs_home_serve_root ≡ o
    → IsRead s
    → IsRead (or_default_root s o)
      × ((root : Bytes) × ((or_default_root s o).rs_home_serve_root ≡ some root))
unfolding or_default_root
or_default_root-IsRead s none e r = (
  record {
    root_len = refl;
    auth_uri_len = r.auth_uri_len;
    webfinger = r.webfinger;
    scheme = r.scheme;
    pid_file_held = r.pid_file_held;
  },
  (codes "storage", refl),
)
or_default_root-IsRead s (some root) e r = (r, (root, e))

pub or_default_root-stop :
    (s : Settings) (o : Option Bytes) → (or_default_root s o).rs_stop_other ≡ s.rs_stop_other
unfolding or_default_root
or_default_root-stop s none = refl
or_default_root-stop s (some root) = refl

pub or_dont_log_debug-holds :
    (Q : Settings → Type 0) (s : Settings) (o : Option Bool)
    → s.current_log_debug ≡ o
    → (s.current_log_debug ≢ none → Q s)
    → Q (record s { current_log_debug = some false })
    → Q (or_dont_log_debug s o)
unfolding or_dont_log_debug
or_dont_log_debug-holds Q s none e h h' = h'
or_dont_log_debug-holds Q s (some logs) e h h' = h (λ e'. let both = sym e ∙ e' in cc)
