-- ===== src/Server/Start.antt =====
-- main() of src/process/main.c, after init_config, open_authorizations and init_webfinger have returned.
-- libmagic, libevent, libevhtp and the calls of the system are parameters, by what they return.
use rs_serve.Base.{
  ℕ, ◌%◌, ◌^◌, Bool, true, Option, none, some, List, [], ◌∷◌, Bytes, codes, if◌then◌else◌,
}
use rs_serve.CString.Decimal.{decimal}
use rs_serve.Options.{Settings, exit_success, exit_failure}

pub record Startup : Type 0 where
  -- magic_load() == 0
  pub magic_loads : Bool
  -- event_base_new() != NULL
  pub has_event_base : Bool
  -- evhtp_ssl_init() == 0, with the certificate, the key and the CA file; all else of ssl_config is fixed
  pub ssl_init : Option Bytes → Option Bytes → Option Bytes → Bool
  -- evhtp_bind_sockaddr() == 0, for a port
  pub binds : ℕ → Bool
  -- sigprocmask() == 0
  pub masks_signals : Bool
  -- signalfd() != -1
  pub has_signal_fd : Bool
  -- fork(): the child's process id, or -1
  pub fork : Option ℕ
  pub getpid : ℕ

pub data Callback : Type 0 where
  handle_webfinger_cb reject_webfinger_cb handle_storage_cb : Callback

-- The paths and the regular expression that main gives to libevhtp, with their callbacks.
abbrev pub routes : Bool → List (Bytes × Callback)
routes webfinger_enabled =
    let webfinger_cb = if webfinger_enabled then handle_webfinger_cb else reject_webfinger_cb in
    (codes "/.well-known/webfinger", webfinger_cb)
    ∷ (codes "/.well-known/host-meta", webfinger_cb)
    ∷ (codes "/.well-known/host-meta.json", webfinger_cb)
    ∷ (codes "^/storage/([^/]+)/.*$", handle_storage_cb)
    ∷ []

-- The process that dispatches events.
pub record Serving : Type 0 where
  pub pid : ℕ
  pub port : ℕ
  pub callbacks : List (Bytes × Callback)

-- What has become of the server when the process that was started is in event_base_dispatch or has
-- ended; `exit_status` is none in the first case. `pid_file` has the path and the text written.
pub record Started : Type 0 where
  pub server : Option Serving
  pub exit_status : Option ℕ
  pub pid_file : Option (Bytes × Bytes)

-- exit(), which also removes a PID file: close_pid_file is in Options/Apply.
abbrev pub failed_start : Started
failed_start = record { server = none; exit_status = some exit_failure; pid_file = none }

-- if(RS_PID_FILE) fprintf(RS_PID_FILE, "%d", …)
unfoldable pub write_pid_file : Settings → Bytes → Option (Bytes × Bytes)
write_pid_file s text =
    if s.pid_file_open
    then elim s.rs_pid_file_path [ none ↦ none | some path ↦ some (path, text) ]
    else none

-- A pid_t in decimal.
abbrev pub print_pid : Option ℕ → Bytes
print_pid none = codes "-1"
print_pid (some pid) = decimal 10 pid

-- htons takes an unsigned short.
abbrev pub bound_port : Settings → ℕ
bound_port s = s.rs_port % 2 ^ 16

abbrev pub serving : Settings → ℕ → Serving
serving s pid = record { pid = pid; port = bound_port s; callbacks = routes s.rs_webfinger_enabled }

abbrev pub detached_server : Settings → Option ℕ → Option Serving
detached_server s none = none
detached_server s (some pid) = some (serving s pid)

-- RUN EVENT LOOP. The parent of a fork exits, also when there is no child.
unfoldable pub run_event_loop : Settings → Startup → Started
unfolding write_pid_file
run_event_loop s st =
    if s.rs_detach
    then record {
      server = detached_server s st.fork;
      exit_status = some exit_success;
      pid_file = write_pid_file s (print_pid st.fork);
    }
    else record {
      server = some (serving s st.getpid);
      exit_status = none;
      pid_file = write_pid_file s (print_pid (some st.getpid));
    }

unfoldable pub start_ssl : Settings → Startup → Bool
start_ssl s st =
    if s.rs_use_ssl then st.ssl_init s.rs_ssl_cert_path s.rs_ssl_key_path s.rs_ssl_ca_path else true

unfoldable pub start : Settings → Startup → Started
unfolding run_event_loop start_ssl
start s st =
    if st.magic_loads
    then if st.has_event_base
      then if start_ssl s st
        then if st.binds (bound_port s)
          then if st.masks_signals
            then if st.has_signal_fd then run_event_loop s st else failed_start
            else failed_start
          else failed_start
        else failed_start
      else failed_start
    else failed_start
