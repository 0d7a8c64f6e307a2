-- ===== src/Server/PidFile.antt =====
-- The PID file that src/process/main.c writes and the option --stop of src/config.c reads.
use rs_serve.Base.{
  ℕ, ◌<◌, ◌^◌, ◌≡◌, refl, ◌∙◌, ap, true, Option, none, some, List, ◌∷◌, Bytes, if◌then◌else◌,
  if-holds, if-both,
}
use rs_serve.CString.Decimal.{decimal}
use rs_serve.CString.Scan.{scan_int, scan_int-decimal}
use rs_serve.Options.{Opt, stop, pid_file, System, Settings, exits, exit_success, exit_failure}
use rs_serve.Options.Apply.{exit_with, stop_other, set_pid_file, apply_option}
use rs_serve.Options.Init.{loop, init_config}
use rs_serve.Server.Start.{
  Startup, Serving, Started, failed_start, write_pid_file, print_pid, detached_server,
  run_event_loop, start_ssl, start,
}

-- The file names the process that serves.
abbrev pub NamesServer : Bytes → Started → Type 0
NamesServer path started =
    (sv : Serving) → started.server ≡ some sv → started.pid_file ≡ some (path, decimal 10 sv.pid)

run_event_loop-NamesServer :
    (s : Settings) (st : Startup) (path : Bytes)
    → s.pid_file_open ≡ true
    → s.rs_pid_file_path ≡ some path
    → NamesServer path (run_event_loop s st)
unfolding run_event_loop write_pid_file
run_event_loop-NamesServer s st path opened named =
    if-holds (NamesServer path) s.rs_detach _ _ (λ detached sv e. forked st.fork sv e)
      (λ attached sv e. let same : st.getpid ≡ sv.pid = cc in rw (opened, named, same) refl)
  where
    forked :
        (fork : Option ℕ) (sv : Serving)
        → detached_server s fork ≡ some sv
        → write_pid_file s (print_pid fork) ≡ some (path, decimal 10 sv.pid)
    forked none sv e = cc
    forked (some pid) sv e = let same : pid ≡ sv.pid = cc in rw (opened, named, same) refl

failed_start-NamesServer : (path : Bytes) → NamesServer path failed_start
failed_start-NamesServer path sv e = cc

-- When the server runs, the PID file that was named holds the id of the process that dispatches events,
-- also when that is the child of a fork.
pub start-NamesServer :
    (s : Settings) (st : Startup) (path : Bytes)
    → s.pid_file_open ≡ true
    → s.rs_pid_file_path ≡ some path
    → NamesServer path (start s st)
unfolding start
start-NamesServer s st path opened named =
    let fails = failed_start-NamesServer path in
    let runs = run_event_loop-NamesServer s st path opened named in
    if-both (NamesServer path) st.magic_loads _ failed_start
      (if-both (NamesServer path) st.has_event_base _ failed_start
        (if-both (NamesServer path) (start_ssl s st) _ failed_start
          (if-both (NamesServer path) (st.binds _) _ failed_start
            (if-both (NamesServer path) st.masks_signals _ failed_start
              (if-both (NamesServer path) st.has_signal_fd (run_event_loop s st) failed_start runs
                fails)
              fails)
            fails)
          fails)
        fails)
      fails

init_config-stops :
    (S : System) (w : S.World) (path : Bytes) (pid : ℕ) (opts : List Opt)
    → S.read_pid w path ≡ some (some pid)
    → init_config S w (stop ∷ pid_file path ∷ opts)
      ≡ exits (S.terminate w pid).0 (if (S.terminate w pid).1 then exit_success else exit_failure)
unfolding init_config loop apply_option set_pid_file stop_other exit_with
init_config-stops S w path pid opts scanned = rw scanned refl

-- If a server was started with a PID file, and what it wrote is what --stop reads of the file, then
-- `--stop --pid-file=<file>` sends SIGTERM to the process that serves, and exits with success just if
-- it could be sent. Process ids have at most 10 digits.
pub stop-terminates_server :
    (s : Settings) (st : Startup) (path : Bytes) (sv : Serving) (S : System) (w : S.World)
    (opts : List Opt)
    → s.pid_file_open ≡ true
    → s.rs_pid_file_path ≡ some path
    → (start s st).server ≡ some sv
    → sv.pid < 10 ^ 10
    → ((text : Bytes)
        → (start s st).pid_file ≡ some (path, text)
        → S.read_pid w path ≡ some (scan_int text))
    → init_config S w (stop ∷ pid_file path ∷ opts)
      ≡ exits
          (S.terminate w sv.pid).0
          (if (S.terminate w sv.pid).1 then exit_success else exit_failure)
stop-terminates_server s st path sv S w opts opened named serves short reads =
    let written = start-NamesServer s st path opened named sv serves in
    init_config-stops S w path sv.pid opts
      (reads (decimal 10 sv.pid) written ∙ ap some (scan_int-decimal 9 sv.pid short))
