-- ===== src/Server/Messages.antt =====
-- log_event_base_message of src/process/main.c, which takes the messages of libevent to the log.
use rs_serve.Base.{
  ℕ, ◌<◌, ◌^◌, ◌≡◌, refl, Bool, [], Bytes, codes, arith, ltb, ltb_iff, if◌then◌else◌, true, if-both,
}
use rs_serve.Log.{
  Logged, logged, overruns, log_warn, log_info, log_error, do_log_debug, dont_log_debug,
}
use rs_serve.Log.Fits.{log-logged_or_overruns, do_log_debug-logged}

-- `other_severity` is none of the four that libevent names.
pub data Severity : Type 0 where
  event_log_debug event_log_msg event_log_err event_log_warn other_severity : Severity

abbrev pub message_format : Bytes
message_format = codes "(from libevent) %s"

-- `debugs` says whether current_log_debug is do_log_debug; `file` and `number` are __FILE__ and __LINE__,
-- and vfprintf puts the message into the line.
module _ (vfprintf : Bytes → Bytes) (pid : ℕ) (timestamp : Bytes) (debugs : Bool) (file : Bytes)
    (number : ℕ) where
  unfoldable pub log_event_base_message : Severity → Logged
  log_event_base_message event_log_debug =
      if debugs
      then do_log_debug vfprintf pid timestamp file number message_format
      else dont_log_debug file number message_format
  log_event_base_message event_log_msg = log_info vfprintf pid timestamp message_format
  log_event_base_message event_log_err = log_error vfprintf pid timestamp message_format
  log_event_base_message event_log_warn = log_warn vfprintf pid timestamp message_format
  log_event_base_message other_severity = logged []

  abbrev IsLogged : Logged → Type 0
  IsLogged l = (text : Bytes) × (l ≡ logged text)

  if_short :
      (l : Logged) (text : Bytes) (short : Bool)
      → short ≡ true
      → l ≡ (if short then logged text else overruns)
      → IsLogged l
  if_short l text short e h = (text, rw e at h)

  -- No message overruns its array where the process id is below 100000 and the line number of main.c has
  -- at most 10 digits.
  log_event_base_message-IsLogged :
      (severity : Severity)
      → pid < 10 ^ 5
      → number < 10 ^ 10
      → IsLogged (log_event_base_message severity)
  unfolding log_event_base_message dont_log_debug
  log_event_base_message-IsLogged event_log_debug short line =
      if-both IsLogged debugs _ _
        (
          _,
          do_log_debug-logged vfprintf pid timestamp file number message_format 4 9 short line
              (omega arith),
        )
        ([], refl)
  log_event_base_message-IsLogged event_log_msg short line =
      let (warns, informs, errs) = log-logged_or_overruns vfprintf pid timestamp message_format in
      if_short _ _ (ltb pid (10 ^ 5)) ((ltb_iff pid (10 ^ 5)).1 short) informs
  log_event_base_message-IsLogged event_log_err short line =
      let (warns, informs, errs) = log-logged_or_overruns vfprintf pid timestamp message_format in
      if_short _ _ (ltb pid (10 ^ 5)) ((ltb_iff pid (10 ^ 5)).1 short) errs
  log_event_base_message-IsLogged event_log_warn short line =
      let (warns, informs, errs) = log-logged_or_overruns vfprintf pid timestamp message_format in
      if_short _ _ (ltb pid (10 ^ 5)) ((ltb_iff pid (10 ^ 5)).1 short) warns
  log_event_base_message-IsLogged other_severity short line = ([], refl)
