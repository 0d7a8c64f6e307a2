-- ===== src/CString/Scan.antt =====
-- scanf("%d") on the digits of a number that is not negative.
use rs_serve.Base.{
  ℕ, zero, suc, ◌+◌, ◌-◌, ◌*◌, ◌/◌, ◌%◌, ◌^◌, ◌<◌, ◌≡◌, refl, ◌∙◌, ap, inl, inr, Bool, true, ◌&&◌,
  Option, none, some, [], ◌∷◌, ◌++◌, leb, ltb, ltb_iff, arith, Bytes, All, All-append,
  if◌then◌else◌, Bool-cases, if-both, ◌≢◌,
}
use rs_serve.CString.Decimal.{decimal, pow_suc}

abbrev pub is_digit : ℕ → Bool
is_digit c = leb b'0' c && leb c b'9'

-- The number that the leading digits write, behind the digits of `acc`.
unfoldable pub scan_from : ℕ → Bytes → ℕ
scan_from acc [] = acc
scan_from acc (c ∷ cs) =
    let more = scan_from (10 * acc + (c - b'0')) cs in if is_digit c then more else acc

-- none: nothing is scanned, as the text starts with no digit
unfoldable pub scan_int : Bytes → Option ℕ
unfolding scan_from
scan_int [] = none
scan_int (c ∷ cs) = if is_digit c then some (scan_from 0 (c ∷ cs)) else none

abbrev IsDigits : Bytes → Type 0
IsDigits = All (λ c. is_digit c ≡ true)

last_digit : (n : ℕ) → is_digit (b'0' + n % 10) ≡ true
last_digit n = ground arith

scan_from-append :
    (xs ys : Bytes) (acc : ℕ)
    → IsDigits xs
    → scan_from acc (xs ++ ys) ≡ scan_from (scan_from acc xs) ys
unfolding scan_from
scan_from-append [] ys acc h = refl
scan_from-append (x ∷ xs) ys acc h = rw h.0 (scan_from-append xs ys (10 * acc + (x - b'0')) h.1)

decimal-IsDigits : (digits n : ℕ) → IsDigits (decimal digits n)
unfolding decimal
decimal-IsDigits zero n = tt
decimal-IsDigits (suc digits) n =
    All-append (λ c. is_digit c ≡ true) (if ltb n 10 then [] else decimal digits (n / 10)) _
      (if-both IsDigits (ltb n 10) [] (decimal digits (n / 10)) tt
        (decimal-IsDigits digits (n / 10)))
      (last_digit n, tt)

-- One more digit.
scan_from-digit :
    (xs : Bytes) (n : ℕ)
    → IsDigits xs
    → scan_from 0 (xs ++ ((b'0' + n % 10) ∷ [])) ≡ 10 * scan_from 0 xs + n % 10
unfolding scan_from
scan_from-digit xs n h =
    let e = scan_from-append xs ((b'0' + n % 10) ∷ []) 0 h in
    let last = last_digit n in rw e (rw last (omega arith))

scan_from-decimal : (digits n : ℕ) → n < 10 ^ digits → scan_from 0 (decimal digits n) ≡ n
unfolding decimal scan_from
scan_from-decimal zero n h = omega arith
scan_from-decimal (suc digits) n h =
    let ih = scan_from-decimal digits (n / 10) (omega (arith, pow_suc digits, h)) in
    elim (Bool-cases (ltb n 10)) [
      | inl e ↦
          let digit = scan_from-digit [] n tt in rw e (omega (arith, digit, (ltb_iff n 10).0 e))
      | inr e ↦
          let digit =
            scan_from-digit (decimal digits (n / 10)) n (decimal-IsDigits digits (n / 10)) in
          rw e (omega (arith, digit, ih))
    ]

scan_int-IsDigits : (s : Bytes) → IsDigits s → s ≢ [] → scan_int s ≡ some (scan_from 0 s)
unfolding scan_int
scan_int-IsDigits [] h not_empty = absurd (not_empty refl)
scan_int-IsDigits (c ∷ s) h not_empty = rw h.0 refl

not_empty-append : (xs : Bytes) (y : ℕ) → xs ++ (y ∷ []) ≢ []
not_empty-append [] y h = cc
not_empty-append (x ∷ xs) y h = cc

-- What printf("%d") has written of a number, scanf("%d") reads.
pub scan_int-decimal :
    (digits n : ℕ) → n < 10 ^ suc digits → scan_int (decimal (suc digits) n) ≡ some n
unfolding decimal
scan_int-decimal digits n h =
    let value = scan_from-decimal (suc digits) n h in
    scan_int-IsDigits (decimal (suc digits) n) (decimal-IsDigits (suc digits) n)
      (not_empty-append (if ltb n 10 then [] else decimal digits (n / 10)) (b'0' + n % 10))
    ∙ ap some value
