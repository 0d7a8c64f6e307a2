-- ===== src/CString/Decimal.antt =====
-- The decimal digits that printf("%d") writes of a number that is not negative.
use rs_serve.Base.{
  ℕ, zero, suc, ◌+◌, ◌*◌, ◌/◌, ◌%◌, ◌^◌, ◌≤◌, ◌<◌, ◌≡◌, inl, inr, [], ◌∷◌, ◌++◌, ltb, arith, Bytes,
  length, length-append, if◌then◌else◌, Bool-cases, ltb_iff,
}

-- The last `digits` digits of `n`, without leading zeros.
unfoldable pub decimal : ℕ → ℕ → Bytes
decimal zero n = []
decimal (suc digits) n =
    let higher = decimal digits (n / 10) in
    (if ltb n 10 then [] else higher) ++ ((b'0' + n % 10) ∷ [])

pub pow_suc : (k : ℕ) → 10 ^ suc k ≡ 10 * 10 ^ k
pow_suc k = omega arith

-- A number below 10 ^ k has at most k digits.
pub length-decimal-le : (digits k n : ℕ) → n < 10 ^ suc k → length (decimal digits n) ≤ suc k
unfolding decimal
length-decimal-le zero k n h = omega arith
length-decimal-le (suc digits) zero n h = ground arith
length-decimal-le (suc digits) (suc k) n h =
    let shorter = length-decimal-le digits k (n / 10) (omega (arith, pow_suc (suc k), h)) in
    elim (Bool-cases (ltb n 10)) [
      | inl e ↦ rw e (omega arith)
      | inr e ↦
          let sum = length-append (decimal digits (n / 10)) ((b'0' + n % 10) ∷ []) in
          rw e (omega (arith, sum, shorter))
    ]

pow_pos : (k : ℕ) → 1 ≤ 10 ^ k
pow_pos zero = omega arith
pow_pos (suc k) = omega (arith, pow_suc k, pow_pos k)

-- A number of at least 10 ^ k has more than k of them.
pub lt-length-decimal : (digits k n : ℕ) → k < digits → 10 ^ k ≤ n → k < length (decimal digits n)
unfolding decimal
lt-length-decimal zero k n h h' = omega arith
lt-length-decimal (suc digits) zero n h h' =
    let sum =
      length-append (if ltb n 10 then [] else decimal digits (n / 10)) ((b'0' + n % 10) ∷ []) in
    omega (arith, sum)
lt-length-decimal (suc digits) (suc k) n h h' =
    let longer = lt-length-decimal digits k (n / 10) (omega arith) (omega (arith, pow_suc k, h')) in
    elim (Bool-cases (ltb n 10)) [
      | inl e ↦
          let below = ltb_iff n 10 in
          let at_least = pow_pos k in absurd (omega (arith, below.0 e, at_least, pow_suc k, h'))
      | inr e ↦
          let sum = length-append (decimal digits (n / 10)) ((b'0' + n % 10) ∷ []) in
          rw e (omega (arith, sum, longer))
    ]
