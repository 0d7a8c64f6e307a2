-- ===== src/Log.antt =====
-- The log of the server, src/common/log.c. The clock's text and the process id are arguments, and so is
-- vfprintf, which puts the arguments of the call into the line.
pub mod Fits
use rs_serve.Base.{ℕ, ◌+◌, Bool, List, [], ◌∷◌, ◌++◌, leb, Bytes, codes, length, if◌then◌else◌}
use rs_serve.CString.Decimal.{decimal}

-- What a call leaves: the text in the log file, or a write past the end of the array `new_format`.
pub data Logged : Type 0 where
  logged : Bytes → Logged
  overruns : Logged

-- The digits of an int.
abbrev pub int_digits : ℕ
int_digits = 10

-- "[%d] [%s] [", and what follows it
abbrev pub line : ℕ → Bytes → Bytes → Bytes
line pid timestamp rest =
    b'[' ∷ (decimal int_digits pid ++ (codes "] [" ++ (timestamp ++ (codes "] [" ++ rest))))

-- sprintf into an array of `size` bytes, which takes the text and a NUL, and then vfprintf.
unfoldable pub print_into : (Bytes → Bytes) → ℕ → Bytes → Logged
print_into vfprintf size new_format =
    if leb size (length new_format) then overruns else logged (vfprintf new_format)

module _ (vfprintf : Bytes → Bytes) (pid : ℕ) (timestamp : Bytes) where
  unfoldable pub log_warn : Bytes → Logged
  unfolding print_into
  log_warn format =
      print_into vfprintf (length timestamp + length format + 6 + 14)
        (line pid timestamp (codes "WARN] " ++ (format ++ codes "\n")))

  unfoldable pub log_info : Bytes → Logged
  unfolding print_into
  log_info format =
      print_into vfprintf (length timestamp + length format + 6 + 14)
        (line pid timestamp (codes "INFO] " ++ (format ++ codes "\n")))

  unfoldable pub log_error : Bytes → Logged
  unfolding print_into
  log_error format =
      print_into vfprintf (length timestamp + length format + 6 + 15)
        (line pid timestamp (codes "ERROR] " ++ (format ++ codes "\n")))

  unfoldable pub do_log_debug : Bytes → ℕ → Bytes → Logged
  unfolding print_into
  do_log_debug file number format =
      print_into vfprintf (length timestamp + length format + length file + 5 + 6 + 23) (
        line pid timestamp (
          codes "DEBUG] "
          ++ (file
              ++ (b':' ∷ (decimal int_digits number ++ (codes ": " ++ (format ++ codes "\n")))))))

-- dont_log_debug, which takes the place of do_log_debug without --debug
unfoldable pub dont_log_debug : Bytes → ℕ → Bytes → Logged
dont_log_debug file number format = logged []
