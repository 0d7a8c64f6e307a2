-- ===== src/CString.antt =====
-- The functions of <string.h> and <libgen.h> that the program calls, on C strings without their
-- terminating NUL.
pub mod Laws
pub mod Dirname
pub mod Decimal
pub mod Scan
use rs_serve.Base.{
  ℕ, zero, suc, Bool, true, false, ◌&&◌, Option, none, some, List, [], ◌∷◌, ◌==◌, reverse,
  if◌then◌else◌, Bytes,
}

-- strcmp(a, b) == 0
unfoldable pub str_eq : Bytes → Bytes → Bool
str_eq [] [] = true
str_eq [] (y ∷ ys) = false
str_eq (x ∷ xs) [] = false
str_eq (x ∷ xs) (y ∷ ys) = x == y && str_eq xs ys

-- strncmp(a, b, n) == 0
unfoldable pub strn_eq : Bytes → Bytes → ℕ → Bool
strn_eq a b zero = true
strn_eq [] [] (suc n) = true
strn_eq [] (y ∷ ys) (suc n) = false
strn_eq (x ∷ xs) [] (suc n) = false
strn_eq (x ∷ xs) (y ∷ ys) (suc n) = x == y && strn_eq xs ys n

-- What follows a prefix, if the text starts with it.
unfoldable pub strip_prefix : Bytes → Bytes → Option Bytes
strip_prefix [] s = some s
strip_prefix (p ∷ ps) [] = none
strip_prefix (p ∷ ps) (c ∷ cs) = if p == c then strip_prefix ps cs else none

abbrev onto_before : ℕ → Option (Bytes × Bytes) → Option (Bytes × Bytes)
onto_before c none = none
onto_before c (some (before, after)) = some (c ∷ before, after)

-- strstr(s, needle): the text before the first occurrence and the text behind it.
unfoldable pub strstr : Bytes → Bytes → Option (Bytes × Bytes)
unfolding strip_prefix
strstr [] needle = elim (strip_prefix needle []) [ none ↦ none | some after ↦ some ([], after) ]
strstr (c ∷ cs) needle =
    let later = onto_before c (strstr cs needle) in
    elim (strip_prefix needle (c ∷ cs)) [ none ↦ later | some after ↦ some ([], after) ]

-- The text up to a byte, and what follows it.
unfoldable pub break_at : ℕ → Bytes → Bytes × Bytes
break_at d [] = ([], [])
break_at d (c ∷ cs) = let rest = break_at d cs in if c == d then ([], cs) else (c ∷ rest.0, rest.1)

unfoldable pub skip_byte : ℕ → Bytes → Bytes
skip_byte d [] = []
skip_byte d (c ∷ cs) = let rest = skip_byte d cs in if c == d then rest else c ∷ cs

unfoldable pub token_of : ℕ → Bytes → Option (Bytes × Bytes)
unfolding break_at
token_of d [] = none
token_of d (c ∷ cs) = some (break_at d (c ∷ cs))

-- strtok_r with one delimiter: the token and what `saveptr` then points to.
unfoldable pub strtok : ℕ → Bytes → Option (Bytes × Bytes)
unfolding token_of skip_byte
strtok d s = token_of d (skip_byte d s)

-- From the first occurrence of a byte on; empty if there is none.
unfoldable pub from_byte : ℕ → Bytes → Bytes
from_byte d [] = []
from_byte d (c ∷ cs) = let rest = from_byte d cs in if c == d then c ∷ cs else rest

unfoldable pub dirname_prefix : Bytes → Bytes
dirname_prefix [] = b'/' ∷ []
dirname_prefix (c ∷ cs) = reverse (c ∷ cs)

unfoldable pub dirname_above : Bytes → Bytes
unfolding skip_byte dirname_prefix
dirname_above [] = b'.' ∷ []
dirname_above (c ∷ cs) = dirname_prefix (skip_byte b'/' (c ∷ cs))

unfoldable pub dirname_last : Bytes → Bytes → Bytes
unfolding from_byte dirname_above
dirname_last [] [] = b'.' ∷ []
dirname_last (c ∷ cs) [] = b'/' ∷ []
dirname_last path (c ∷ cs) = dirname_above (from_byte b'/' (c ∷ cs))

-- dirname(path), on the path from its end: trailing slashes, the last component and the slashes before
-- it are taken off.
unfoldable pub dirname : Bytes → Bytes
unfolding dirname_last skip_byte
dirname path = dirname_last path (skip_byte b'/' (reverse path))
