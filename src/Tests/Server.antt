-- ===== src/Tests/Server.antt =====
-- The server and its options: src/process/main.c, src/config.c.
use rs_serve.Base.{◌≡◌, ◌≢◌, refl, true, false, some, List, [], ◌∷◌, ◌++◌, Bytes, codes, arith}
use rs_serve.CString.{str_eq}
use rs_serve.CString.Decimal.{decimal}
use rs_serve.Options.{
  Opt, port, dir, stop, pid_file, auth_uri, ssl, System, Settings, default_settings, configured,
  exits,
}
use rs_serve.Options.Init.{init_config}
use rs_serve.Options.Ready.{IsConfigured}
use rs_serve.Options.Configured.{init_config-IsConfigured, init_config-stop}
use rs_serve.Server.Start.{Startup, serving, start}
use rs_serve.Auth.Handle.{Opening, open_authorizations}
use rs_serve.Server.Main.{ran, main, IsServing, main-IsServing}
use rs_serve.Server.PidFile.{stop-terminates_server}

-- A system in which every call succeeds; the PID file holds `42`.
abbrev system : System
system = record {
  World = List Bytes;
  atoi = λ text. 8000;
  open_append = λ w path. (path ∷ w, true);
  open_new = λ w path. (path ∷ w, true);
  read_pid = λ w path. some (some 42);
  terminate = λ w pid. (w, true);
  unlink = λ w path. w;
}

abbrev options : List Opt
options =
    port (codes "8000")
    ∷ dir (codes "remote/")
    ∷ auth_uri (codes "https://a/%s")
    ∷ pid_file (codes "pid")
    ∷ []

abbrev settings : Settings
settings = record default_settings {
  rs_port = 8000;
  pid_file_open = true;
  rs_pid_file_path = some (codes "pid");
  rs_home_serve_root = some (codes "remote");
  rs_home_serve_root_len = 6;
  rs_auth_uri = some (codes "https://a/%s");
  rs_auth_uri_len = 12;
  current_log_debug = some false;
  exit_handlers = 1;
}

configured_test : init_config system [] options ≡ configured (codes "pid" ∷ []) settings
unfolding init_config
configured_test = refl

init_config-IsConfigured_example : IsConfigured settings
init_config-IsConfigured_example =
    init_config-IsConfigured system [] (codes "pid" ∷ []) options settings configured_test

init_config-stop_example :
    init_config system [] ((ssl ∷ []) ++ (stop ∷ [])) ≢ configured [] settings
init_config-stop_example = init_config-stop system [] [] (ssl ∷ []) [] settings

abbrev startup : Startup
startup = record {
  magic_loads = true;
  has_event_base = true;
  ssl_init = λ cert key ca. true;
  binds = λ p. true;
  masks_signals = true;
  has_signal_fd = true;
  fork = some 42;
  getpid = 41;
}

abbrev detached : Settings
detached = record settings { rs_detach = true }

written_text :
    (text : Bytes)
    → (start detached startup).pid_file ≡ some (codes "pid", text)
    → codes "42" ≡ text
unfolding start decimal
written_text text e = cc

stop-terminates_server_example :
    init_config system [] (stop ∷ pid_file (codes "pid") ∷ []) ≡ exits [] 0
stop-terminates_server_example =
    stop-terminates_server detached startup (codes "pid") (serving detached 42) system [] [] refl
      refl (unfold start in refl) (omega arith) reads
  where
    reads :
        (text : Bytes)
        → (start detached startup).pid_file ≡ some (codes "pid", text)
        → some (some 42) ≡ some (rs_serve.CString.Scan.scan_int text)
    reads text e =
        let same = written_text text e in
        rw (← same) (unfold rs_serve.CString.Scan.scan_int in refl)

-- The calls of Berkeley DB succeed.
abbrev opening : Opening
opening = record { creates_env = true; opens_env = true; creates_db = true; opens_db = true }

main_test :
    main system opening startup [] options
    ≡ ran (codes "pid" ∷ []) settings (start settings startup)
unfolding main init_config start open_authorizations
main_test = refl

main-IsServing_example : IsServing settings startup (start settings startup) (serving settings 41)
main-IsServing_example =
    main-IsServing system opening startup [] (codes "pid" ∷ []) options settings
      (start settings startup) (serving settings 41) main_test (unfold start in refl)
