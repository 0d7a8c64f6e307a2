-- ===== src/Server/Main.antt =====
-- main() of src/process/main.c as a whole: the options, the database, and the start. init_webfinger only
-- builds the formats that Webfinger has.
use rs_serve.Base.{
  ℕ, ◌≡◌, refl, ◌∙◌, ap, true, not, Option, none, some, List, Bytes, ◌==◌, if◌then◌else◌, if-both,
  if-holds, ◌%◌, ◌^◌,
}
use rs_serve.CString.Decimal.{decimal}
use rs_serve.Auth.Handle.{Handle, closed, Opening, open_authorizations}
use rs_serve.Options.{Opt, System, Settings, Result, configured, exits, undefined, exit_failure}
use rs_serve.Options.Apply.{exit_with}
use rs_serve.Options.Init.{is_null, init_config}
use rs_serve.Options.Ready.{IsConfigured}
use rs_serve.Options.Configured.{init_config-IsConfigured}
use rs_serve.Server.Start.{
  Startup, routes, Serving, Started, failed_start, bound_port, detached_server, run_event_loop,
  start_ssl, start,
}
use rs_serve.Server.PidFile.{start-NamesServer}

-- How main goes on: to the event loop or the end of the parent of a fork, to an exit, or to abort().
pub data Ran (World : Type 0) : Type 0 where
  ran : World → Settings → Started → Ran World
  ended : Result World → Ran World
  aborted : Ran World

module _ (S : System) (o : Opening) (st : Startup) where
  -- A failed start calls exit(); the parent of a fork calls _exit(), without the handlers of atexit.
  abbrev pub after_start : S.World → Settings → Started → Ran S.World
  after_start w s started = elim started.exit_status [
    | none ↦ ran w s started
    | some status ↦
        if status == exit_failure then ended (exit_with S w s status) else ran w s started
  ]

  abbrev pub after_open : S.World → Settings → Option Handle → Ran S.World
  after_open w s none = aborted
  after_open w s (some auth_db) = after_start w s (start s st)

  abbrev pub after_config : Result S.World → Ran S.World
  after_config (configured w s) = after_open w s (open_authorizations o closed)
  after_config (exits w status) = ended (exits w status)
  after_config undefined = ended undefined

  unfoldable pub main : S.World → List Opt → Ran S.World
  main w opts = after_config (init_config S w opts)

-- A process that serves.
pub record IsServing (s : Settings) (st : Startup) (started : Started) (sv : Serving) : Type 0 where
  pub consistent : IsConfigured s
  -- Webfinger is answered where there is an OAuth endpoint, else rejected.
  pub routed : sv.callbacks ≡ routes (not (is_null s.rs_auth_uri))
  pub bound : sv.port ≡ s.rs_port % 2 ^ 16
  -- With SSL, libevhtp has taken the certificate and the key.
  pub secured :
      s.rs_use_ssl ≡ true → st.ssl_init s.rs_ssl_cert_path s.rs_ssl_key_path s.rs_ssl_ca_path ≡ true
  pub named :
      (path : Bytes)
      → s.rs_pid_file_path ≡ some path
      → started.pid_file ≡ some (path, decimal 10 sv.pid)

module _ (s : Settings) (st : Startup) where
  abbrev Serves : Started → Type 0
  Serves started =
      (sv : Serving)
      → started.server ≡ some sv
      → (sv.callbacks ≡ routes s.rs_webfinger_enabled)
        × (sv.port ≡ bound_port s)
        × (start_ssl s st ≡ true)

  failed_start-Serves : Serves failed_start
  failed_start-Serves sv e = cc

  run_event_loop-Serves : start_ssl s st ≡ true → Serves (run_event_loop s st)
  unfolding run_event_loop
  run_event_loop-Serves secure =
      if-both Serves s.rs_detach _ _ (forked st.fork)
        (λ sv e. let same = some_is e in rw (← same) (refl, refl, secure))
    where
      some_is : {A : Type 0} → {a b : A} → Option.some a ≡ some b → a ≡ b
      some_is e = cc

      forked :
          (fork : Option ℕ) (sv : Serving)
          → detached_server s fork ≡ some sv
          → (sv.callbacks ≡ routes s.rs_webfinger_enabled)
            × (sv.port ≡ bound_port s)
            × (start_ssl s st ≡ true)
      forked none sv e = cc
      forked (some pid) sv e = let same = some_is e in rw (← same) (refl, refl, secure)

  start-Serves : Serves (start s st)
  unfolding start
  start-Serves =
      let fails = failed_start-Serves in
      if-both Serves st.magic_loads _ failed_start
        (if-both Serves st.has_event_base _ failed_start
          (if-holds Serves (start_ssl s st) _ failed_start
            (λ secure.
              if-both Serves (st.binds _) _ failed_start
                (if-both Serves st.masks_signals _ failed_start
                  (if-both Serves st.has_signal_fd (run_event_loop s st) failed_start
                    (run_event_loop-Serves secure) fails)
                  fails)
                fails)
            (λ insecure. fails))
          fails)
        fails

start_ssl-accepts :
    (s : Settings) (st : Startup)
    → start_ssl s st ≡ true
    → s.rs_use_ssl ≡ true
    → st.ssl_init s.rs_ssl_cert_path s.rs_ssl_key_path s.rs_ssl_ca_path ≡ true
unfolding start_ssl
start_ssl-accepts s st h ssl = rw ssl at h

start-IsServing :
    (s : Settings) (st : Startup) (sv : Serving)
    → IsConfigured s
    → (start s st).server ≡ some sv
    → IsServing s st (start s st) sv
start-IsServing s st sv c e =
    let (callbacks, port, secure) = start-Serves s st sv e in
    record {
      consistent = c;
      routed = callbacks ∙ ap routes c.webfinger;
      bound = port;
      secured = start_ssl-accepts s st secure;
      named = λ path set.
          start-NamesServer s st path (c.pid_file_held ∙ (rw set (unfold is_null in refl))) set sv
            e;
    }

module _ (S : System) (o : Opening) (st : Startup) where
  abbrev AllServe : Ran S.World → Type 0
  AllServe (ran w s started) = (sv : Serving) → started.server ≡ some sv → IsServing s st started sv
  AllServe (ended result) = Unit
  AllServe aborted = Unit

  after_start-AllServe :
      (w : S.World) (s : Settings) (started : Started) (exit_status : Option ℕ)
      → ((sv : Serving) → started.server ≡ some sv → IsServing s st started sv)
      → AllServe (elim exit_status [
        | none ↦ ran w s started
        | some status ↦
            if status == exit_failure then ended (exit_with S w s status) else ran w s started
      ])
  after_start-AllServe w s started none serve = serve
  after_start-AllServe w s started (some status) serve =
      if-both AllServe (status == exit_failure) _ (ran w s started) tt serve

  after_open-AllServe :
      (w : S.World) (s : Settings) (auth_db : Option Handle)
      → IsConfigured s
      → AllServe (after_open S o st w s auth_db)
  after_open-AllServe w s none c = tt
  after_open-AllServe w s (some auth_db) c =
      after_start-AllServe w s (start s st) (start s st).exit_status
        (λ sv e. start-IsServing s st sv c e)

  after_config-AllServe :
      (w : S.World) (opts : List Opt) (r : Result S.World)
      → init_config S w opts ≡ r
      → AllServe (after_config S o st r)
  after_config-AllServe w opts (configured w' s) e =
      after_open-AllServe w' s (open_authorizations o closed)
        (init_config-IsConfigured S w w' opts s e)
  after_config-AllServe w opts (exits w' status) e = tt
  after_config-AllServe w opts undefined e = tt

  -- Where main comes to serve, whatever the options were: the variables are consistent, webfinger is
  -- answered just if there is an OAuth endpoint, the port is the one of the variables modulo 2 ^ 16, with
  -- SSL libevhtp has accepted the certificate, the key and the CA file, and a PID file that was named holds
  -- the id of the process that serves.
  pub main-IsServing :
      (w w' : S.World) (opts : List Opt) (s : Settings) (started : Started) (sv : Serving)
      → main S o st w opts ≡ ran w' s started
      → started.server ≡ some sv
      → IsServing s st started sv
  unfolding main
  main-IsServing w w' opts s started sv e serves =
      let all = after_config-AllServe w opts (init_config S w opts) refl in (rw e at all) sv serves
