-- ===== src/Json/Document.antt =====
-- JSON documents, their text, and the calls that write them.
use rs_serve.Base.{ℕ, suc, [], ◌∷◌, ◌++◌, Bytes, Bool, true, false, if◌then◌else◌}
use Prim.Native.Nat.{max}
use rs_serve.Json.{
  Json, json_make_string, json_start_array, json_end_array, json_start_object, json_end_object,
  json_write_string, json_write_key,
}

mutual
  pub data Value : Type 0 where
    text : Bytes → Value
    object : Members → Value
    array : Items → Value

  pub data Members : Type 0 where
    end : Members
    member : Bytes → Value → Members → Members

  pub data Items : Type 0 where
    nil : Items
    item : Value → Items → Items

-- The text of a document by the grammar of JSON, in front of what follows it. The flag is set at
-- the first member or item, which has no comma.
unfoldable mutual
  pub print : Value → Bytes
  print (text s) = json_make_string s
  print (object ms) = b'{' ∷ (print_members true ms ++ (b'}' ∷ []))
  print (array is) = b'[' ∷ (print_items true is ++ (b']' ∷ []))

  pub print_members : Bool → Members → Bytes
  print_members first end = []
  print_members first (member k v ms) =
      (if first then [] else b',' ∷ [])
      ++ (json_make_string k ++ (b':' ∷ (print v ++ print_members false ms)))

  pub print_items : Bool → Items → Bytes
  print_items first nil = []
  print_items first (item v is) =
      (if first then [] else b',' ∷ []) ++ (print v ++ print_items false is)

-- The calls that a client makes for a document.
unfoldable mutual
  pub emit : Value → Json → Json
  emit (text s) json = json_write_string json s
  emit (object ms) json = json_end_object (emit_members ms (json_start_object json))
  emit (array is) json = json_end_array (emit_items is (json_start_array json))

  pub emit_members : Members → Json → Json
  emit_members end json = json
  emit_members (member k v ms) json = emit_members ms (emit v (json_write_key json k))

  pub emit_items : Items → Json → Json
  emit_items nil json = json
  emit_items (item v is) json = emit_items is (emit v json)

-- How many nested objects and arrays the document opens.
unfoldable mutual
  pub depth : Value → ℕ
  depth (text s) = 0
  depth (object ms) = suc (depth_members ms)
  depth (array is) = suc (depth_items is)

  pub depth_members : Members → ℕ
  depth_members end = 0
  depth_members (member k v ms) = max (depth v) (depth_members ms)

  pub depth_items : Items → ℕ
  depth_items nil = 0
  depth_items (item v is) = max (depth v) (depth_items is)

-- No array has two items: the writer has no call that separates items.
mutual
  pub data IsSimple : Value → Type 0 where
    simple_text : (s : Bytes) → IsSimple (text s)
    simple_object : (ms : Members) → AreSimple ms → IsSimple (object ms)
    simple_empty : IsSimple (array nil)
    simple_array : (v : Value) → IsSimple v → IsSimple (array (item v nil))

  pub data AreSimple : Members → Type 0 where
    simple_end : AreSimple end
    simple_member :
        (k : Bytes) (v : Value) (ms : Members)
        → IsSimple v
        → AreSimple ms
        → AreSimple (member k v ms)
