-- ===== src/CString/Laws.antt =====
-- Laws of the string functions.
use rs_serve.Base.{◌≡◌, refl, ◌≢◌, ◌↔◌, true, none, some, [], ◌∷◌, ◌++◌, arith, Bytes, length}
use rs_serve.CString.{str_eq, strn_eq, strip_prefix, strstr}

pub str_eq_iff : (a b : Bytes) → (str_eq a b ≡ true) ↔ (a ≡ b)
unfolding str_eq
str_eq_iff [] [] = ground arith
str_eq_iff [] (y ∷ b) = ground arith
str_eq_iff (x ∷ a) [] = ground arith
str_eq_iff (x ∷ a) (y ∷ b) = ground (arith, str_eq_iff a b)

-- strncmp over the length of its second text tests for a prefix.
pub strn_eq_prefix :
    (s p : Bytes) → strn_eq s p (length p) ≡ true → (rest : Bytes) × (s ≡ p ++ rest)
unfolding strn_eq
strn_eq_prefix s [] h = (s, refl)
strn_eq_prefix [] (y ∷ p) h = cc
strn_eq_prefix (x ∷ s) (y ∷ p) h =
    let (rest, e) = strn_eq_prefix s p (ground arith) in (rest, ground arith)

pub strn_eq-append : (p rest : Bytes) → strn_eq (p ++ rest) p (length p) ≡ true
unfolding strn_eq
strn_eq-append [] rest = refl
strn_eq-append (y ∷ p) rest = ground (arith, strn_eq-append p rest)

pub strip_prefix-eq_some : (p s rest : Bytes) → strip_prefix p s ≡ some rest → s ≡ p ++ rest
unfolding strip_prefix
strip_prefix-eq_some [] s rest h = ground arith
strip_prefix-eq_some (x ∷ p) [] rest h = cc
strip_prefix-eq_some (x ∷ p) (c ∷ s) rest h = ground (arith, strip_prefix-eq_some p s rest)

pub strip_prefix-append : (p rest : Bytes) → strip_prefix p (p ++ rest) ≡ some rest
unfolding strip_prefix
strip_prefix-append [] rest = refl
strip_prefix-append (x ∷ p) rest = ground (arith, strip_prefix-append p rest)

-- `needle` stands somewhere in `s`.
pub record Occurs (needle s : Bytes) : Type 0 where
  pub before : Bytes
  pub after : Bytes
  pub splits : s ≡ before ++ (needle ++ after)

pub strstr-eq_some :
    (s needle before after : Bytes)
    → strstr s needle ≡ some (before, after)
    → s ≡ before ++ (needle ++ after)
unfolding strstr
strstr-eq_some [] needle before after h = ground (arith, strip_prefix-eq_some needle [] after)
strstr-eq_some (c ∷ s) needle [] after h = ground (arith, strip_prefix-eq_some needle (c ∷ s) after)
strstr-eq_some (c ∷ s) needle (b ∷ before) after h =
    ground (arith, strstr-eq_some s needle before after)

strstr_found : (before needle after : Bytes) → strstr (before ++ (needle ++ after)) needle ≢ none
unfolding strstr
strstr_found [] needle after h = starts (needle ++ after) refl h
  where
    starts : (s : Bytes) → s ≡ needle ++ after → strstr s needle ≢ none
    starts [] e h = ground (arith, rw (← e) at (strip_prefix-append needle after))
    starts (c ∷ s) e h = ground (arith, rw (← e) at (strip_prefix-append needle after))
strstr_found (b ∷ before) needle after h = ground (arith, strstr_found before needle after)

-- strstr finds every occurrence: where it returns NULL there is none.
pub strstr-none : (s needle : Bytes) → strstr s needle ≡ none → ¬ Occurs needle s
strstr-none s needle h o = strstr_found o.before needle o.after (rw (← o.splits) h)

pub strstr-some-Occurs :
    (s needle before after : Bytes) → strstr s needle ≡ some (before, after) → Occurs needle s
strstr-some-Occurs s needle before after h = record {
  before = before;
  after = after;
  splits = strstr-eq_some s needle before after h;
}
