-- ===== src/Options/Loop.antt =====
-- The loop of init_config in src/config.c: what it keeps of the variables.
use rs_serve.Base.{
  ℕ, ◌+◌, ◌≡◌, refl, Bool, true, false, not, Option, none, some, Bytes, length, if◌then◌else◌,
  if-both, arith,
}
use rs_serve.Options.{
  Opt, invalid, port, hostname, dir, pid_file, stop, log_file, debug, detach, help, version,
  auth_uri, experimental, ssl, cert_path, key_path, ca_path, no_xattr, short_r, System, Settings,
  http, https, default_settings, Result, configured, exits, undefined, Turn, continues, ends,
  exit_failure,
}
use rs_serve.Options.Apply.{
  close_pid_file, exit_with, stop_other, open_pid_file, set_pid_file, set_log_file, set_dir,
  strip_slash, apply_option,
}
use rs_serve.Options.Init.{is_null, text_of}

-- What the loop keeps consistent, on the variables that it concerns.
pub record Read (root : Option Bytes) (root_size : ℕ) (uri : Option Bytes) (uri_size : ℕ)
    (webfinger_enabled : Bool) (scheme_text : Bytes) (use_ssl : Bool) (file_open : Bool)
    (path : Option Bytes) : Type 0 where
  pub root_len : root_size ≡ length (text_of root)
  pub auth_uri_len : uri_size ≡ length (text_of uri)
  pub webfinger : webfinger_enabled ≡ true
  pub scheme : scheme_text ≡ (if use_ssl then https else http)
  pub pid_file_held : file_open ≡ not (is_null path)

abbrev pub IsRead : Settings → Type 0
IsRead s =
    Read s.rs_home_serve_root s.rs_home_serve_root_len s.rs_auth_uri s.rs_auth_uri_len
      s.rs_webfinger_enabled s.rs_scheme s.rs_use_ssl s.pid_file_open s.rs_pid_file_path

pub default-IsRead : IsRead default_settings
unfolding is_null
default-IsRead = record {
  root_len = refl;
  auth_uri_len = refl;
  webfinger = refl;
  scheme = refl;
  pid_file_held = refl;
}

module _ (S : System) where
  -- A property of the variables, if the result is that the server is configured.
  abbrev pub Configures : (Settings → Type 0) → Result S.World → Type 0
  Configures P (configured w s) = P s
  Configures P (exits w status) = Unit
  Configures P undefined = Unit

  abbrev pub NotConfigured : Result S.World → Type 0
  NotConfigured r = Configures (λ s. ⊥) r

  pub exit_with-NotConfigured :
      (w : S.World) (s : Settings) (status : ℕ) → NotConfigured (exit_with S w s status)
  unfolding exit_with close_pid_file
  exit_with-NotConfigured w s status = ground arith

  -- A property of the variables that a turn keeps if the loop goes on; a turn that ends it does not
  -- configure the server.
  abbrev pub Keeps : (Settings → Type 0) → Turn S.World → Type 0
  Keeps P (continues w s) = P s
  Keeps P (ends result) = NotConfigured result

  stop_other-NotConfigured :
      (w : S.World) (s : Settings) (scanned : Option (Option ℕ))
      → NotConfigured (stop_other S w s scanned)
  unfolding stop_other
  stop_other-NotConfigured w s none = search exit_with-NotConfigured
  stop_other-NotConfigured w s (some none) = tt
  stop_other-NotConfigured w s (some (some pid)) = search exit_with-NotConfigured

  abbrev with_pid_file : Settings → Bytes → Settings
  with_pid_file s path = record s {
    rs_pid_file_path = some path;
    pid_file_open = true;
    exit_handlers = s.exit_handlers + 1;
  }

  open_pid_file-Keeps :
      (P : Settings → Type 0) (s : Settings) (path : Bytes) (opened : S.World × Bool)
      → P (with_pid_file s path)
      → Keeps P (open_pid_file S (record s { rs_pid_file_path = some path }) opened)
  unfolding open_pid_file
  open_pid_file-Keeps P s path (w, true) h = h
  open_pid_file-Keeps P s path (w, false) h = search exit_with-NotConfigured

  set_pid_file-Keeps :
      (P : Settings → Type 0) (w : S.World) (s : Settings) (path : Bytes)
      → P (with_pid_file s path)
      → Keeps P (set_pid_file S w s path)
  unfolding set_pid_file
  set_pid_file-Keeps P w s path h =
      if-both (Keeps P) s.rs_stop_other
        (ends (stop_other S w (record s { rs_pid_file_path = some path }) (S.read_pid w path)))
        (open_pid_file S (record s { rs_pid_file_path = some path }) (S.open_new w path))
        (stop_other-NotConfigured w (record s { rs_pid_file_path = some path }) (S.read_pid w path))
        (open_pid_file-Keeps P s path (S.open_new w path) h)

  set_log_file-Keeps :
      (P : Settings → Type 0) (s : Settings) (path : Bytes) (opened : S.World × Bool)
      → P (record s { rs_log_file = some path })
      → Keeps P (set_log_file S s path opened)
  unfolding set_log_file
  set_log_file-Keeps P s path (w, true) h = h
  set_log_file-Keeps P s path (w, false) h = search exit_with-NotConfigured

  set_dir-Keeps :
      (P : Settings → Type 0) (w : S.World) (s : Settings) (root : Option Bytes)
      → ((r : Bytes)
          → P (record s { rs_home_serve_root = some r; rs_home_serve_root_len = length r }))
      → Keeps P (set_dir S w s root)
  unfolding set_dir
  set_dir-Keeps P w s none h = tt
  set_dir-Keeps P w s (some r) h = h r

  pub apply_option-IsRead :
      (w : S.World) (s : Settings) (opt : Opt) → IsRead s → Keeps IsRead (apply_option S w s opt)
  unfolding apply_option is_null
  apply_option-IsRead w s invalid r = exit_with-NotConfigured w s exit_failure
  apply_option-IsRead w s (port arg) r = r
  apply_option-IsRead w s (hostname arg) r = r
  apply_option-IsRead w s (dir arg) r = set_dir-Keeps IsRead w s (strip_slash arg) (λ root. record {
    root_len = refl;
    auth_uri_len = r.auth_uri_len;
    webfinger = r.webfinger;
    scheme = r.scheme;
    pid_file_held = r.pid_file_held;
  })
  apply_option-IsRead w s (pid_file arg) r = set_pid_file-Keeps IsRead w s arg (record {
    root_len = r.root_len;
    auth_uri_len = r.auth_uri_len;
    webfinger = r.webfinger;
    scheme = r.scheme;
    pid_file_held = refl;
  })
  apply_option-IsRead w s stop r = r
  apply_option-IsRead w s (log_file arg) r = set_log_file-Keeps IsRead s arg (S.open_append w arg) r
  apply_option-IsRead w s debug r = r
  apply_option-IsRead w s detach r = r
  apply_option-IsRead w s help r = exit_with-NotConfigured w s 127
  apply_option-IsRead w s version r = exit_with-NotConfigured w s 127
  apply_option-IsRead w s (auth_uri arg) r = record {
    root_len = r.root_len;
    auth_uri_len = refl;
    webfinger = r.webfinger;
    scheme = r.scheme;
    pid_file_held = r.pid_file_held;
  }
  apply_option-IsRead w s experimental r = r
  apply_option-IsRead w s ssl r = record {
    root_len = r.root_len;
    auth_uri_len = r.auth_uri_len;
    webfinger = r.webfinger;
    scheme = refl;
    pid_file_held = r.pid_file_held;
  }
  apply_option-IsRead w s (cert_path arg) r = r
  apply_option-IsRead w s (key_path arg) r = r
  apply_option-IsRead w s (ca_path arg) r = r
  apply_option-IsRead w s no_xattr r = r
  apply_option-IsRead w s (short_r arg) r = r

  -- --stop stays set.
  abbrev pub IsStopping : Settings → Type 0
  IsStopping s = s.rs_stop_other ≡ true

  pub apply_option-IsStopping :
      (w : S.World) (s : Settings) (opt : Opt)
      → IsStopping s
      → Keeps IsStopping (apply_option S w s opt)
  unfolding apply_option
  apply_option-IsStopping w s invalid h = exit_with-NotConfigured w s exit_failure
  apply_option-IsStopping w s (dir arg) h = set_dir-Keeps IsStopping w s (strip_slash arg) (λ r. h)
  apply_option-IsStopping w s (pid_file arg) h = set_pid_file-Keeps IsStopping w s arg h
  apply_option-IsStopping w s stop h = refl
  apply_option-IsStopping w s (log_file arg) h =
      set_log_file-Keeps IsStopping s arg (S.open_append w arg) h
  apply_option-IsStopping w s help h = exit_with-NotConfigured w s 127
  apply_option-IsStopping w s version h = exit_with-NotConfigured w s 127
  apply_option-IsStopping w s _ h = h
