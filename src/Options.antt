-- ===== src/Options.antt =====
-- The command line of the server, src/config.c: the variables of src/config.h and init_config. The
-- options are a list of what getopt_long returns for them. What is written to stderr and to the log is
-- not modelled.
pub mod Apply
pub mod Init
pub mod Loop
pub mod Ready
pub mod Configured
use rs_serve.Base.{
  ℕ, ◌+◌, Bool, true, false, Option, none, some, List, [], ◌∷◌, Bytes, codes, length, ◌==◌, ◌||◌,
  if◌then◌else◌,
}

-- `opt` with `optarg`, one constructor for each of long_options and for `-r`, which only the short
-- options have. `invalid` is '?'.
pub data Opt : Type 0 where
  invalid : Opt
  port : Bytes → Opt
  hostname : Bytes → Opt
  dir : Bytes → Opt
  pid_file : Bytes → Opt
  stop : Opt
  log_file : Bytes → Opt
  debug : Opt
  detach : Opt
  help : Opt
  version : Opt
  auth_uri : Bytes → Opt
  experimental : Opt
  ssl : Opt
  cert_path : Bytes → Opt
  key_path : Bytes → Opt
  ca_path : Bytes → Opt
  no_xattr : Opt
  short_r : Bytes → Opt

-- The system: its files and processes, atoi with the bits of its `int`, the calls of fopen in the modes
-- "a" and "wx" with `false` for NULL, and unlink.
pub record System : Type 1 where
  pub World : Type 0
  pub atoi : Bytes → ℕ
  pub open_append : World → Bytes → World × Bool
  pub open_new : World → Bytes → World × Bool
  -- fopen in the mode "r" with fscanf of a number: none if the file does not open
  pub read_pid : World → Bytes → Option (Option ℕ)
  -- kill(pid, SIGTERM) == 0
  pub terminate : World → ℕ → World × Bool
  pub unlink : World → Bytes → World

-- The variables; `none` is NULL, in `rs_log_file` also stdout. `pid_file_open` says of rs_pid_file that
-- it is not NULL, and `exit_handlers` counts the calls of atexit(close_pid_file).
pub record Settings : Type 0 where
  pub rs_port : ℕ
  pub rs_scheme : Bytes
  pub rs_hostname : Bytes
  pub rs_detach : Bool
  pub rs_log_file : Option Bytes
  pub pid_file_open : Bool
  pub rs_pid_file_path : Option Bytes
  pub rs_home_serve_root : Option Bytes
  pub rs_home_serve_root_len : ℕ
  pub rs_stop_other : Bool
  pub rs_auth_uri : Option Bytes
  pub rs_auth_uri_len : ℕ
  pub rs_webfinger_enabled : Bool
  pub rs_experimental : Bool
  pub rs_use_ssl : Bool
  pub rs_ssl_cert_path : Option Bytes
  pub rs_ssl_key_path : Option Bytes
  pub rs_ssl_ca_path : Option Bytes
  pub rs_use_xattr : Bool
  -- current_log_debug: do_log_debug or not
  pub current_log_debug : Option Bool
  pub exit_handlers : ℕ

abbrev pub http : Bytes
http = codes "http"

abbrev pub https : Bytes
https = codes "https"

abbrev pub default_settings : Settings
default_settings = record {
  rs_port = 80;
  rs_scheme = http;
  rs_hostname = codes "local.dev";
  rs_detach = false;
  rs_log_file = none;
  pid_file_open = false;
  rs_pid_file_path = none;
  rs_home_serve_root = none;
  rs_home_serve_root_len = 0;
  rs_stop_other = false;
  rs_auth_uri = none;
  rs_auth_uri_len = 0;
  rs_webfinger_enabled = true;
  rs_experimental = false;
  rs_use_ssl = false;
  rs_ssl_cert_path = none;
  rs_ssl_key_path = none;
  rs_ssl_ca_path = none;
  rs_use_xattr = true;
  current_log_debug = none;
  exit_handlers = 0;
}

-- `undefined` is a read of what is not there: before the start of a text, of a number that was not
-- scanned, of a file that is closed.
pub data Result (World : Type 0) : Type 0 where
  configured : World → Settings → Result World
  exits : World → ℕ → Result World
  undefined : Result World

-- One turn of the loop.
pub data Turn (World : Type 0) : Type 0 where
  continues : World → Settings → Turn World
  ends : Result World → Turn World

abbrev pub exit_success : ℕ
exit_success = 0

abbrev pub exit_failure : ℕ
exit_failure = 1
