-- ===== src/Log/Fits.antt =====
-- The arrays of src/common/log.c against the lines that are printed into them.
use rs_serve.Base.{
  ℕ, suc, ◌+◌, ◌≤◌, ◌<◌, ◌^◌, ◌≡◌, inl, inr, ◌∷◌, ◌++◌, arith, Bytes, codes, length, length-append,
  Bool-cases, ltb, ltb_iff, if◌then◌else◌,
}
use rs_serve.CString.Decimal.{decimal, length-decimal-le, lt-length-decimal}
use rs_serve.Log.{
  logged, overruns, int_digits, line, print_into, log_warn, log_info, log_error, do_log_debug,
}

length-line :
    (pid : ℕ) (timestamp rest : Bytes)
    → length (line pid timestamp rest)
      ≡ 7 + length (decimal int_digits pid) + length timestamp + length rest
length-line pid timestamp rest =
    let digits = decimal int_digits pid in
    let text = timestamp ++ (codes "] [" ++ rest) in
    omega (
      arith,
      length-append digits (codes "] [" ++ text),
      length-append timestamp (codes "] [" ++ rest),
    )

-- The line is written, or the array is too small.
fits :
    (vfprintf : Bytes → Bytes) (size : ℕ) (text : Bytes)
    → length text < size
    → print_into vfprintf size text ≡ logged (vfprintf text)
unfolding print_into
fits vfprintf size text h = ground arith

too_long :
    (vfprintf : Bytes → Bytes) (size : ℕ) (text : Bytes)
    → size ≤ length text
    → print_into vfprintf size text ≡ overruns
unfolding print_into
too_long vfprintf size text h = ground arith

module _ (vfprintf : Bytes → Bytes) (pid : ℕ) (timestamp : Bytes) where
  -- A line with a tag of `n` bytes in an array with room for 6 more and for the rest of the line.
  short_pid-fits :
      (tag format : Bytes)
      → pid < 10 ^ 5
      → print_into vfprintf
          (length timestamp + length format + 6 + (length tag + 8))
          (line pid timestamp (tag ++ (format ++ codes "\n")))
        ≡ logged (vfprintf (line pid timestamp (tag ++ (format ++ codes "\n"))))
  short_pid-fits tag format h = fits vfprintf _ _ (
      omega (
        arith,
        length-line pid timestamp (tag ++ (format ++ codes "\n")),
        length-append tag (format ++ codes "\n"),
        length-append format (codes "\n"),
        length-decimal-le int_digits 4 pid h,
      ))

  long_pid-overruns :
      (tag format : Bytes)
      → 10 ^ 5 ≤ pid
      → print_into vfprintf
          (length timestamp + length format + 6 + (length tag + 8))
          (line pid timestamp (tag ++ (format ++ codes "\n")))
        ≡ overruns
  long_pid-overruns tag format h = too_long vfprintf _ _ (
      omega (
        arith,
        length-line pid timestamp (tag ++ (format ++ codes "\n")),
        length-append tag (format ++ codes "\n"),
        length-append format (codes "\n"),
        lt-length-decimal int_digits 5 pid (omega arith) h,
      ))

  -- The line of a call with the given tag.
  abbrev pub tagged_line : Bytes → Bytes → Bytes
  tagged_line tag format = line pid timestamp (tag ++ (format ++ codes "\n"))

  -- The lines of the three loggers.
  in_room :
      (tag format : Bytes)
      → print_into vfprintf
          (length timestamp + length format + 6 + (length tag + 8))
          (line pid timestamp (tag ++ (format ++ codes "\n")))
        ≡ (if ltb pid (10 ^ 5) then logged (vfprintf (tagged_line tag format)) else overruns)
  in_room tag format = elim (Bool-cases (ltb pid (10 ^ 5))) [
    | inl e ↦ rw e (short_pid-fits tag format ((ltb_iff pid (10 ^ 5)).0 e))
    | inr e ↦ rw e (long_pid-overruns tag format (ground (arith, e)))
  ]

  -- The three loggers write their line if the process id is below 100000, and each of them writes past
  -- its array if it is not.
  pub log-logged_or_overruns :
      (format : Bytes)
      → (log_warn vfprintf pid timestamp format ≡ (
          if ltb pid (10 ^ 5)
          then logged (vfprintf (tagged_line (codes "WARN] ") format))
          else overruns))
        × (log_info vfprintf pid timestamp format ≡ (
            if ltb pid (10 ^ 5)
            then logged (vfprintf (tagged_line (codes "INFO] ") format))
            else overruns))
        × (log_error vfprintf pid timestamp format ≡ (
            if ltb pid (10 ^ 5)
            then logged (vfprintf (tagged_line (codes "ERROR] ") format))
            else overruns))
  unfolding log_warn log_info log_error
  log-logged_or_overruns format = (
    in_room (codes "WARN] ") format,
    in_room (codes "INFO] ") format,
    in_room (codes "ERROR] ") format,
  )

  -- The debug line is written if the process id and the line number have at most 15 digits together:
  -- they are below 10 to the powers of `a` and `b` of this sum.
  pub do_log_debug-logged :
      (file : Bytes) (number : ℕ) (format : Bytes) (a b : ℕ)
      → pid < 10 ^ suc a
      → number < 10 ^ suc b
      → a + b ≤ 13
      → do_log_debug vfprintf pid timestamp file number format
        ≡ logged (
            vfprintf (
              line pid timestamp (
                codes "DEBUG] "
                ++ (file
                    ++ (b':'
                        ∷ (decimal int_digits number ++ (codes ": " ++ (format ++ codes "\n"))))))))
  unfolding do_log_debug
  do_log_debug-logged file number format a b h h' sum =
      let digits = decimal int_digits number in
      let text = codes ": " ++ (format ++ codes "\n") in
      fits vfprintf _ _ (
        omega (
          arith,
          length-line pid timestamp (codes "DEBUG] " ++ (file ++ (b':' ∷ (digits ++ text)))),
          length-append file (b':' ∷ (digits ++ text)),
          length-append digits text,
          length-append format (codes "\n"),
          length-decimal-le int_digits a pid h,
          length-decimal-le int_digits b number h',
        ))
