-- ===== src/Json.antt =====
-- src/common/json.c: a writer of JSON that escapes strings and places commas with a small stack.
pub mod Text
pub mod Document
pub mod Writer
use rs_serve.Base.{
  ℕ, suc, ◌+◌, ◌-◌, ◌*◌, Bool, true, false, ◌||◌, List, [], ◌∷◌, ◌++◌, ◌==◌, leb, Bytes,
  if◌then◌else◌,
}

-- JSON_MAX_DEPTH
abbrev pub max_depth : ℕ
max_depth = 5

-- struct json. `cell i` is `ss[i]`, `sp` is the index of the stack pointer in `ss`, and `out` is what
-- has been handed to `write`, which both callers append to an evbuffer.
pub record Json : Type 0 where
  pub out : Bytes
  pub cell : ℕ → ℕ
  pub sp : ℕ

-- The cells of a new writer are not initialised.
unfoldable pub new_json : (ℕ → ℕ) → Bytes → Json
new_json cells buffer = record { out = buffer; cell = cells; sp = 0 }

abbrev pub write : Json → Bytes → Json
write json text = record json { out = json.out ++ text }

abbrev pub set_top : Json → ℕ → Json
set_top json v = record json { cell = λ i. if i == json.sp then v else json.cell i }

-- JSON_PUSH_NESTING: past the depth an error is logged and nothing changes.
unfoldable pub push_nesting : Json → Json
push_nesting json =
    if leb max_depth (json.sp + 1) then json else set_top (record json { sp = json.sp + 1 }) 0

-- JSON_POP_NESTING. At `sp == ss` it would leave the array; no caller does that.
unfoldable pub pop_nesting : Json → Json
pop_nesting json = record json { sp = json.sp - 1 }

-- The loop of json_make_string.
unfoldable pub escape_string : Bytes → Bytes
escape_string [] = []
escape_string (c ∷ s) =
    let rest = c ∷ escape_string s in if c == b'"' || c == b'\\' then b'\\' ∷ rest else rest

unfoldable pub json_make_string : Bytes → Bytes
json_make_string s = b'"' ∷ (escape_string s ++ (b'"' ∷ []))

unfoldable pub json_start_array : Json → Json
unfolding push_nesting
json_start_array json = set_top (push_nesting (write json (b'[' ∷ []))) 0

unfoldable pub json_end_array : Json → Json
unfolding pop_nesting
json_end_array json = pop_nesting (write json (b']' ∷ []))

unfoldable pub json_start_object : Json → Json
unfolding push_nesting
json_start_object json = push_nesting (write json (b'{' ∷ []))

unfoldable pub json_end_object : Json → Json
unfolding pop_nesting
json_end_object json = pop_nesting (write json (b'}' ∷ []))

unfoldable pub json_write_string : Json → Bytes → Json
json_write_string json s = write json (json_make_string s)

-- The comma before every key but the first.
unfoldable pub begin_key : Json → Json
begin_key json =
    if json.cell json.sp == 1
    then write json (b',' ∷ [])
    else if json.cell json.sp == 0
    then set_top json 1
    else json

unfoldable pub json_write_key : Json → Bytes → Json
unfolding begin_key json_write_string
json_write_key json key = write (json_write_string (begin_key json) key) (b':' ∷ [])

unfoldable pub json_write_key_val : Json → Bytes → Bytes → Json
unfolding json_write_key json_write_string
json_write_key_val json key val = json_write_string (json_write_key json key) val
