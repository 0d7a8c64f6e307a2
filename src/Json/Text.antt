-- ===== src/Json/Text.antt =====
-- json_make_string of src/common/json.c: its buffer, and a reader of strings by the rules of JSON.
use rs_serve.Base.{
  ℕ, ◌+◌, ◌*◌, ◌≤◌, ◌≡◌, refl, Option, none, some, [], ◌∷◌, ◌++◌, arith, Bytes, length,
  length-append, append_assoc, ◌==◌, if◌then◌else◌, true, false, Bool, ◌||◌, ltb,
}
use rs_serve.Json.{escape_string, json_make_string}

abbrev onto_text : ℕ → Option (Bytes × Bytes) → Option (Bytes × Bytes)
onto_text c none = none
onto_text c (some (s, rest)) = some (c ∷ s, rest)

-- A reader of JSON strings, behind the opening quote. The flag is set behind a backslash, where a
-- quote or a backslash belongs to the text; other escapes are not needed here and refused. A control
-- character, which JSON wants escaped, is refused.
unfoldable pub read_text : Bool → Bytes → Option (Bytes × Bytes)
read_text escaped [] = none
read_text true (c ∷ rest) =
    if c == b'"' || c == b'\\' then onto_text c (read_text false rest) else none
read_text false (c ∷ rest) =
    if c == b'"'
    then some ([], rest)
    else if c == b'\\'
    then read_text true rest
    else if ltb c 32
    then none
    else onto_text c (read_text false rest)

-- The text has a control character, which is a byte below 32.
unfoldable pub has_control : Bytes → Bool
has_control [] = false
has_control (c ∷ s) = ltb c 32 || has_control s

abbrev pub read_string : Bytes → Option (Bytes × Bytes)
read_string [] = none
read_string (c ∷ rest) = if c == b'"' then read_text false rest else none

length-escape_string : (s : Bytes) → length (escape_string s) ≤ 2 * length s
unfolding escape_string
length-escape_string [] = omega arith
length-escape_string (c ∷ s) = ground (arith, length-escape_string s)

-- With its NUL the string fits into the `strlen(string) * 2 + 3` bytes that are allocated.
pub json_make_string_fits : (s : Bytes) → length (json_make_string s) + 1 ≤ length s * 2 + 3
unfolding json_make_string
json_make_string_fits s =
    omega (arith, length-escape_string s, length-append (escape_string s) (b'"' ∷ []))

read_text-escape_string :
    (s rest : Bytes)
    → read_text false (escape_string s ++ (b'"' ∷ rest))
      ≡ (if has_control s then none else some (s, rest))
unfolding escape_string read_text has_control
read_text-escape_string [] rest = refl
read_text-escape_string (c ∷ s) rest = ground (arith, read_text-escape_string s rest)

-- What json_make_string writes of a string without control characters is read as that string by a reader of
-- JSON strings, which stops behind its closing quote; of a string with one it is no JSON string, and the
-- reader refuses it.
pub read_string-json_make_string :
    (s rest : Bytes)
    → read_string (json_make_string s ++ rest) ≡ (if has_control s then none else some (s, rest))
unfolding json_make_string
read_string-json_make_string s rest =
    rw (append_assoc (escape_string s) (b'"' ∷ []) rest) (read_text-escape_string s rest)
