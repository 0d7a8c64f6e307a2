-- ===== src/Options/Configured.antt =====
-- The variables of src/config.h after init_config has returned.
use rs_serve.Base.{
  ℕ, ◌≡◌, ◌≢◌, refl, ◌∙◌, true, false, Option, none, some, List, [], ◌∷◌, ◌++◌, Bytes, if-holds,
}
use rs_serve.Options.{
  Opt, stop, System, Settings, default_settings, Result, configured, exits, undefined, Turn,
  continues, ends, exit_failure,
}
use rs_serve.Options.Apply.{exit_with, apply_option}
use rs_serve.Options.Init.{
  or_default_root, or_dont_log_debug, checked_ssl, checked_auth_uri, finish, after_turn, loop,
  init_config,
}
use rs_serve.Options.Loop.{
  IsRead, default-IsRead, Configures, NotConfigured, exit_with-NotConfigured, Keeps,
  apply_option-IsRead, IsStopping, apply_option-IsStopping,
}
use rs_serve.Options.Ready.{
  IsConfigured, checked_auth_uri-IsConfigured, Holds, checked_ssl-Holds, or_default_root-IsRead,
  or_default_root-stop, or_dont_log_debug-holds,
}

module _ (S : System) where
  NotConfigured-Configures :
      (P : Settings → Type 0) (r : Result S.World) → NotConfigured S r → Configures S P r
  NotConfigured-Configures P (configured w s) h = absurd h
  NotConfigured-Configures P (exits w status) h = tt
  NotConfigured-Configures P undefined h = tt

  exit_with-Configures :
      (P : Settings → Type 0) (w : S.World) (s : Settings) (status : ℕ)
      → Configures S P (exit_with S w s status)
  exit_with-Configures P w s status =
      NotConfigured-Configures P (exit_with S w s status) (exit_with-NotConfigured S w s status)

  abbrev after_ssl : S.World → Settings → Option Settings → Result S.World
  after_ssl w s checked = elim checked [
    | none ↦ exit_with S w s exit_failure
    | some s' ↦ configured w (checked_auth_uri s')
  ]

  after_ssl-Configures :
      (w : S.World) (s : Settings) (checked : Option Settings)
      → Holds (λ s'. IsConfigured (checked_auth_uri s')) checked
      → Configures S IsConfigured (after_ssl w s checked)
  after_ssl-Configures w s none h = exit_with-Configures IsConfigured w s exit_failure
  after_ssl-Configures w s (some s') h = h

  checked_ssl-Configures :
      (w : S.World) (s : Settings) (root : Bytes)
      → IsRead s
      → s.rs_home_serve_root ≡ some root
      → s.rs_stop_other ≡ false
      → s.current_log_debug ≢ none
      → Configures S IsConfigured (after_ssl w s (checked_ssl s))
  checked_ssl-Configures w s root r set not_stopping logs =
      after_ssl-Configures w s (checked_ssl s) (
        checked_ssl-Holds (λ s'. IsConfigured (checked_auth_uri s')) s
          (λ files. checked_auth_uri-IsConfigured s root r set not_stopping files logs)
          (λ files.
            checked_auth_uri-IsConfigured (record s { rs_port = 443 }) root r set not_stopping files
              logs))

  finish-Configures :
      (w : S.World) (s : Settings) → IsRead s → Configures S IsConfigured (finish S w s)
  unfolding finish
  finish-Configures w s r =
      let s1 = or_default_root s s.rs_home_serve_root in
      let (r1, (root, set)) = or_default_root-IsRead s s.rs_home_serve_root refl r in
      if-holds (Configures S IsConfigured) s1.rs_stop_other (exit_with S w s1 exit_failure)
        (after_ssl w (or_dont_log_debug s1 s1.current_log_debug)
          (checked_ssl (or_dont_log_debug s1 s1.current_log_debug)))
        (λ stopping. exit_with-Configures IsConfigured w s1 exit_failure)
        (λ not_stopping.
          or_dont_log_debug-holds
            (λ s2. Configures S IsConfigured (after_ssl w s2 (checked_ssl s2))) s1
            s1.current_log_debug refl
            (λ logs. checked_ssl-Configures w s1 root r1 set not_stopping logs)
            (checked_ssl-Configures w (record s1 { current_log_debug = some false }) root r1 set
              not_stopping (λ e. cc)))

  after_turn-Configures :
      (P Q : Settings → Type 0) (t : Turn S.World) (next : S.World → Settings → Result S.World)
      → Keeps S P t
      → ((w : S.World) (s : Settings) → P s → Configures S Q (next w s))
      → Configures S Q (after_turn S t next)
  after_turn-Configures P Q (continues w s) next h h' = h' w s h
  after_turn-Configures P Q (ends r) next h h' = NotConfigured-Configures Q r h

  loop-Configures :
      (opts : List Opt) (w : S.World) (s : Settings)
      → IsRead s
      → Configures S IsConfigured (loop S w s opts)
  unfolding loop
  loop-Configures [] w s r = finish-Configures w s r
  loop-Configures (opt ∷ opts) w s r =
      after_turn-Configures IsRead IsConfigured (apply_option S w s opt)
        (λ w' s'. loop S w' s' opts) (apply_option-IsRead S w s opt r) (loop-Configures opts)

  -- Where init_config returns, whatever the options were, the variables are consistent: the storage root
  -- and the URI of the OAuth endpoint with their lengths, webfinger enabled just if there is such a URI,
  -- no request to stop, the scheme that says whether SSL is used, with SSL a certificate, a key and a
  -- port other than 80, a debug logger, and a PID file that is open just if one was named.
  pub init_config-IsConfigured :
      (w w' : S.World) (opts : List Opt) (s : Settings)
      → init_config S w opts ≡ configured w' s
      → IsConfigured s
  unfolding init_config
  init_config-IsConfigured w w' opts s e =
      let c = loop-Configures opts w default_settings default-IsRead in rw e at c

  finish-stopping : (w : S.World) (s : Settings) → IsStopping S s → NotConfigured S (finish S w s)
  unfolding finish
  finish-stopping w s h =
      let still = or_default_root-stop s s.rs_home_serve_root ∙ h in
      rw still (exit_with-NotConfigured S w (or_default_root s s.rs_home_serve_root) exit_failure)

  stopping-NotConfigured :
      (opts : List Opt) (w : S.World) (s : Settings)
      → IsStopping S s
      → NotConfigured S (loop S w s opts)
  unfolding loop
  stopping-NotConfigured [] w s h = finish-stopping w s h
  stopping-NotConfigured (opt ∷ opts) w s h =
      after_turn-Configures (IsStopping S) (λ s'. ⊥) (apply_option S w s opt)
        (λ w' s'. loop S w' s' opts) (apply_option-IsStopping S w s opt h)
        (stopping-NotConfigured opts)

  stop-NotConfigured :
      (before after : List Opt) (w : S.World) (s : Settings)
      → IsRead s
      → NotConfigured S (loop S w s (before ++ (stop ∷ after)))
  unfolding loop apply_option
  stop-NotConfigured [] after w s r =
      stopping-NotConfigured after w (record s { rs_stop_other = true }) refl
  stop-NotConfigured (opt ∷ before) after w s r =
      after_turn-Configures IsRead (λ s'. ⊥) (apply_option S w s opt)
        (λ w' s'. loop S w' s' (before ++ (stop ∷ after))) (apply_option-IsRead S w s opt r)
        (stop-NotConfigured before after)

  -- With --stop anywhere among the options init_config does not return, so that no server is started.
  pub init_config-stop :
      (w w' : S.World) (before after : List Opt) (s : Settings)
      → init_config S w (before ++ (stop ∷ after)) ≢ configured w' s
  unfolding init_config
  init_config-stop w w' before after s e =
      let n = stop-NotConfigured before after w default_settings default-IsRead in
      absurd (rw e at n)
