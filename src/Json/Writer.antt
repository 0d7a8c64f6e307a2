-- ===== src/Json/Writer.antt =====
-- The calls of src/common/json.c for a whole document.
use rs_serve.Base.{
  ℕ, ◌+◌, ◌≤◌, ◌<◌, ◌≡◌, refl, sym, ◌∙◌, [], ◌∷◌, ◌++◌, arith, Bytes, append_assoc, append-nil,
  if◌then◌else◌, true, false, Bool,
}
use rs_serve.Json.{
  Json, json_make_string, json_start_array, json_end_array, json_start_object, json_end_object,
  json_write_string, json_write_key, pop_nesting,
}
use rs_serve.Json.Document.{
  Value, Members, print, emit, emit_members, print_members, depth, depth_members, IsSimple,
  simple_text, simple_object, simple_empty, simple_array, AreSimple, simple_end, simple_member,
}

-- From `json` to `json'` the text `s` is written, and the stack is as it was up to its top.
pub record Emits (s : Bytes) (json json' : Json) : Type 0 where
  pub written : json'.out ≡ json.out ++ s
  pub level : json'.sp ≡ json.sp
  pub kept : (i : ℕ) → i ≤ json.sp → json'.cell i ≡ json.cell i

-- The same between the members of an object, whose own cell may change.
record EmitsMembers (s : Bytes) (json json' : Json) : Type 0 where
  written : json'.out ≡ json.out ++ s
  level : json'.sp ≡ json.sp
  kept : (i : ℕ) → i < json.sp → json'.cell i ≡ json.cell i

abbrev mark : Bool → ℕ
mark first = if first then 0 else 1

abbrev separator : Bool → Bytes
separator first = if first then [] else b',' ∷ []

-- After a key the cell is set, so the next key has a comma.
record AfterKey (first : Bool) (k : Bytes) (json json' : Json) : Type 0 where
  written : json'.out ≡ json.out ++ (separator first ++ (json_make_string k ++ (b':' ∷ [])))
  level : json'.sp ≡ json.sp
  marked : json'.cell json'.sp ≡ 1
  kept : (i : ℕ) → i < json.sp → json'.cell i ≡ json.cell i

json_write_key-AfterKey :
    (first : Bool) (k : Bytes) (json : Json)
    → json.cell json.sp ≡ mark first
    → AfterKey first k json (json_write_key json k)
unfolding json_write_key
json_write_key-AfterKey true k json m = record {
  written = rw m (simp append_assoc);
  level = rw m;
  marked = rw m (ground arith);
  kept = λ i h. rw m (ground arith);
}
json_write_key-AfterKey false k json m = record {
  written = rw m (simp append_assoc);
  level = rw m;
  marked = rw m m;
  kept = λ i h. rw m;
}

-- An opened object or array: its cell is clear.
record Opened (c : ℕ) (json json' : Json) : Type 0 where
  written : json'.out ≡ json.out ++ (c ∷ [])
  level : json'.sp ≡ json.sp + 1
  clear : json'.cell json'.sp ≡ 0
  kept : (i : ℕ) → i ≤ json.sp → json'.cell i ≡ json.cell i

json_start_object-Opened : (json : Json) → json.sp < 4 → Opened b'{' json (json_start_object json)
unfolding json_start_object
json_start_object-Opened json h = record {
  written = ground arith;
  level = ground arith;
  clear = ground arith;
  kept = λ i p. ground arith;
}

json_start_array-Opened : (json : Json) → json.sp < 4 → Opened b'[' json (json_start_array json)
unfolding json_start_array
json_start_array-Opened json h = record {
  written = ground arith;
  level = ground arith;
  clear = ground arith;
  kept = λ i p. ground arith;
}

-- Between the brackets.
closes :
    {json json1 json2 : Json} {c : ℕ} {s : Bytes} (d : ℕ) (pop : Json → Json)
    → ((j : Json) → pop j ≡ pop_nesting (record j { out = j.out ++ (d ∷ []) }))
    → Opened c json json1
    → EmitsMembers s json1 json2
    → Emits (c ∷ (s ++ (d ∷ []))) json (pop json2)
unfolding pop_nesting
closes {json} {json1} {json2} {c} {s} d pop is_pop o e = rw (is_pop json2) (record {
  written = rw (e.written, o.written) (simp append_assoc);
  level = omega (arith, e.level, o.level);
  kept = λ i h. e.kept i (omega (arith, o.level)) ∙ o.kept i h;
})

Emits-Members : {s : Bytes} {json json' : Json} → Emits s json json' → EmitsMembers s json json'
Emits-Members e = record {
  written = e.written;
  level = e.level;
  kept = λ i h. e.kept i (omega arith);
}

-- A key, its value and the members behind it.
member_step :
    {json json1 json2 json3 : Json} {s rest : Bytes} (first : Bool) (k : Bytes)
    → AfterKey first k json json1
    → Emits s json1 json2
    → EmitsMembers rest json2 json3
    → EmitsMembers (separator first ++ (json_make_string k ++ (b':' ∷ (s ++ rest)))) json json3
member_step {json} {json1} {json2} {json3} {s} {rest} first k a e m = record {
  written = rw (m.written, e.written, a.written) (simp append_assoc);
  level = m.level ∙ e.level ∙ a.level;
  kept = λ i h.
      m.kept i (omega (arith, e.level, a.level)) ∙ e.kept i (omega (arith, a.level)) ∙ a.kept i h;
}

text-Emits : (s : Bytes) (json : Json) → Emits (json_make_string s) json (json_write_string json s)
unfolding json_write_string
text-Emits s json = record { written = refl; level = refl; kept = λ i p. refl }

closes_object :
    {json json2 : Json} {s : Bytes}
    → json.sp < 4
    → EmitsMembers s (json_start_object json) json2
    → Emits (b'{' ∷ (s ++ (b'}' ∷ []))) json (json_end_object json2)
closes_object {json} h e =
    closes b'}' json_end_object (unfold json_end_object in λ j. refl)
      (json_start_object-Opened json h) e

closes_array :
    {json json2 : Json} {s : Bytes}
    → json.sp < 4
    → EmitsMembers s (json_start_array json) json2
    → Emits (b'[' ∷ (s ++ (b']' ∷ []))) json (json_end_array json2)
closes_array {json} h e =
    closes b']' json_end_array (unfold json_end_array in λ j. refl) (json_start_array-Opened json h)
      e

nothing : (json : Json) → EmitsMembers [] json json
nothing json = record { written = sym (append-nil json.out); level = refl; kept = λ i h. refl }

one_item : {json json' : Json} {s : Bytes} → Emits s json json' → EmitsMembers (s ++ []) json json'
one_item {s} e = rw (append-nil s) (Emits-Members e)

mutual
  unfolding print emit depth

  emit_value :
      {v : Value} (json : Json)
      → IsSimple v
      → json.sp + depth v ≤ 4
      → Emits (print v) json (emit v json)
  emit_value json (simple_text s) d = text-Emits s json
  emit_value json (simple_object ms h) d =
      let o = json_start_object-Opened json (omega arith) in
      closes_object (omega arith)
        (emit_rest true (json_start_object json) h o.clear (omega (arith, o.level)))
  emit_value json simple_empty d = closes_array (omega arith) (nothing (json_start_array json))
  emit_value json (simple_array v h) d =
      let o = json_start_array-Opened json (omega arith) in
      closes_array (omega arith)
        (one_item (emit_value (json_start_array json) h (omega (arith, o.level))))

  emit_rest :
      {ms : Members} (first : Bool) (json : Json)
      → AreSimple ms
      → json.cell json.sp ≡ mark first
      → json.sp + depth_members ms ≤ 4
      → EmitsMembers (print_members first ms) json (emit_members ms json)
  emit_rest first json simple_end m d = nothing json
  emit_rest first json (simple_member k v ms h hs) m d =
      let a = json_write_key-AfterKey first k json m in
      let e = emit_value (json_write_key json k) h (omega (arith, a.level)) in
      let json2 = emit v (json_write_key json k) in
      let marked = e.kept (json_write_key json k).sp (omega arith) in
      let marked2 : json2.cell json2.sp ≡ 1 = rw e.level (marked ∙ a.marked) in
      member_step first k a e (emit_rest false json2 hs marked2 (omega (arith, e.level, a.level)))

-- A document that is simple (no array of two items) and stays within four levels of nesting is written
-- as its text, and the nesting is back where it was.
pub emit-Emits :
    (v : Value) (json : Json)
    → IsSimple v
    → json.sp + depth v ≤ 4
    → Emits (print v) json (emit v json)
emit-Emits v json h d = emit_value json h d
