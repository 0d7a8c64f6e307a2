-- ===== src/Options/Apply.antt =====
-- The loop of init_config in src/config.c: what it does with one option.
use rs_serve.Base.{
  ℕ, ◌+◌, Bool, true, false, Option, none, some, [], ◌∷◌, Bytes, length, ◌==◌, if◌then◌else◌,
}
use rs_serve.Options.{
  Opt, invalid, port, hostname, dir, pid_file, stop, log_file, debug, detach, help, version,
  auth_uri, experimental, ssl, cert_path, key_path, ca_path, no_xattr, short_r, System, Settings,
  https, Result, exits, undefined, Turn, continues, ends, exit_success, exit_failure,
}

-- `rs_home_serve_root[len - 1] == '/'` and the cut; the empty text has no last byte.
unfoldable pub strip_slash : Bytes → Option Bytes
strip_slash [] = none
strip_slash (c ∷ []) = some (if c == b'/' then [] else c ∷ [])
strip_slash (c ∷ d ∷ cs) = elim (strip_slash (d ∷ cs)) [ none ↦ none | some rest ↦ some (c ∷ rest) ]

module _ (S : System) where
  -- close_pid_file: fclose of NULL or of a closed file is undefined
  unfoldable pub close_pid_file : S.World → Settings → ℕ → Result S.World
  close_pid_file w s status = elim s.rs_pid_file_path [
    | none ↦ undefined
    | some path ↦ if s.pid_file_open then exits (S.unlink w path) status else undefined
  ]

  -- exit(status), which runs the handlers of atexit
  unfoldable pub exit_with : S.World → Settings → ℕ → Result S.World
  unfolding close_pid_file
  exit_with w s status =
      if s.exit_handlers == 0
      then exits w status
      else if s.exit_handlers == 1
      then close_pid_file w s status
      else undefined

  -- --pid-file after --stop; the file is open for reading from then on
  unfoldable pub stop_other : S.World → Settings → Option (Option ℕ) → Result S.World
  unfolding exit_with
  stop_other w s none = exit_with w (record s { pid_file_open = false }) exit_failure
  stop_other w s (some none) = undefined
  stop_other w s (some (some pid)) =
      let (w', sent) = S.terminate w pid in
      exit_with w' (record s { pid_file_open = true }) (if sent then exit_success else exit_failure)

  unfoldable pub open_pid_file : Settings → S.World × Bool → Turn S.World
  unfolding exit_with
  open_pid_file s (w, true) =
      continues w (record s { pid_file_open = true; exit_handlers = s.exit_handlers + 1 })
  open_pid_file s (w, false) = ends (exit_with w (record s { pid_file_open = false }) exit_failure)

  unfoldable pub set_pid_file : S.World → Settings → Bytes → Turn S.World
  unfolding stop_other open_pid_file
  set_pid_file w s path =
      let s' = record s { rs_pid_file_path = some path } in
      if s.rs_stop_other
      then ends (stop_other w s' (S.read_pid w path))
      else open_pid_file s' (S.open_new w path)

  unfoldable pub set_log_file : Settings → Bytes → S.World × Bool → Turn S.World
  unfolding exit_with
  set_log_file s path (w, true) = continues w (record s { rs_log_file = some path })
  set_log_file s path (w, false) = ends (exit_with w (record s { rs_log_file = none }) exit_failure)

  unfoldable pub set_dir : S.World → Settings → Option Bytes → Turn S.World
  set_dir w s none = ends undefined
  set_dir w s (some root) =
      continues w
        (record s { rs_home_serve_root = some root; rs_home_serve_root_len = length root })

  unfoldable pub apply_option : S.World → Settings → Opt → Turn S.World
  unfolding set_pid_file set_log_file set_dir strip_slash
  apply_option w s invalid = ends (exit_with w s exit_failure)
  apply_option w s (port arg) = continues w (record s { rs_port = S.atoi arg })
  apply_option w s (hostname arg) = continues w (record s { rs_hostname = arg })
  apply_option w s (log_file arg) = set_log_file s arg (S.open_append w arg)
  apply_option w s detach = continues w (record s { rs_detach = true })
  apply_option w s help = ends (exit_with w s 127)
  apply_option w s version = ends (exit_with w s 127)
  apply_option w s (pid_file arg) = set_pid_file w s arg
  apply_option w s stop = continues w (record s { rs_stop_other = true })
  apply_option w s debug = continues w (record s { current_log_debug = some true })
  apply_option w s (dir arg) = set_dir w s (strip_slash arg)
  apply_option w s (auth_uri arg) =
      continues w (record s { rs_auth_uri = some arg; rs_auth_uri_len = length arg })
  apply_option w s experimental = continues w (record s { rs_experimental = true })
  apply_option w s ssl = continues w (record s { rs_use_ssl = true; rs_scheme = https })
  apply_option w s (cert_path arg) = continues w (record s { rs_ssl_cert_path = some arg })
  apply_option w s (key_path arg) = continues w (record s { rs_ssl_key_path = some arg })
  apply_option w s (ca_path arg) = continues w (record s { rs_ssl_ca_path = some arg })
  apply_option w s no_xattr = continues w (record s { rs_use_xattr = false })
  apply_option w s (short_r arg) = continues w s
