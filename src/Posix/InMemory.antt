-- ===== src/Posix/InMemory.antt =====
-- A file system in memory, which behaves as IsPosix asks.
pub mod Others
use rs_serve.Base.{
  ◌⊎◌, ◌≡◌, refl, sym, ap, ◌∙◌, inl, inr, Bool, true, false, Option, none, some, List, [], ◌∷◌,
  ◌++◌, Bytes, length, if◌then◌else◌, Bool-cases, take-length, ℕ,
}
use rs_serve.CString.{str_eq}
use rs_serve.CString.Laws.{str_eq_iff}
use rs_serve.Posix.{
  Posix, Errno, enoent, enotdir, eexist, enoattr, other_errno, Stat, Call, returned, failed,
  SameFiles, IsPosix, stored_part,
}

pub data Node : Type 0 where
  directory : List Bytes → Node
  file : Bytes → Node

pub record Files : Type 0 where
  pub node : Bytes → Option Node
  pub attributes : Bytes → Bytes → Option Bytes

unfoldable pub put_node : Files → Bytes → Option Node → Files
put_node fs path n = record {
  node = λ p. if str_eq path p then n else fs.node p;
  attributes = fs.attributes;
}

abbrev pub stat_node : Option Node → Call Stat
stat_node none = failed enoent
stat_node (some (directory names)) = returned (record { is_dir = true; size = 0 })
stat_node (some (file content)) = returned (record { is_dir = false; size = length content })

abbrev pub read_node : Option Node → Call Bytes
read_node (some (file content)) = returned content
read_node _ = failed enoent

abbrev pub is_node : Option Node → Bool
is_node none = false
is_node (some n) = true

abbrev list_node : Option Node → Call (List Bytes)
list_node (some (directory names)) = returned names
list_node _ = failed enoent

abbrev call : {A : Type 0} → Errno → Option A → Call A
call e none = failed e
call e (some a) = returned a

abbrev set_attribute : Files → Bytes → Bytes → Bytes → Files
set_attribute fs path key value = record {
  node = fs.node;
  attributes = λ p k.
      if str_eq path p
      then (if str_eq key k then some value else fs.attributes p k)
      else fs.attributes p k;
}

abbrev pub written : Option Node → Bytes → Option Node
written (some (file content)) body = some (file (content ++ body))
written n body = n

abbrev pub made : Files → Bytes → Option Node → Call Files
made fs path none = returned (put_node fs path (some (directory [])))
made fs path (some n) = failed eexist

abbrev pub removed : Files → Bytes → Option Node → Call Files
removed fs path none = failed enoent
removed fs path (some n) = returned (put_node fs path none)

abbrev pub removed_dir : Files → Bytes → Option Node → Call Files
removed_dir fs path (some (file content)) = failed enotdir
removed_dir fs path n = removed fs path n

abbrev pub rmdir_file : Files → Bytes → Call Files
rmdir_file fs path =
    if str_eq path (b'/' ∷ []) then failed other_errno else removed_dir fs path (fs.node path)

abbrev pub in_memory : Posix
in_memory = record {
  Fs = Files;
  stat = λ fs path. stat_node (fs.node path);
  read_all = λ fs path. read_node (fs.node path);
  can_open = λ fs path. is_node (fs.node path);
  entries = λ fs path. list_node (fs.node path);
  attribute = λ fs path key. call enoattr (fs.attributes path key);
  setxattr = λ fs path key value. (set_attribute fs path key value, returned tt);
  create = λ fs path. returned (put_node fs path (some (file [])));
  write = λ fs path body. (put_node fs path (written (fs.node path) body), returned (length body));
  chown = λ fs path uid gid. fs;
  mkdir = λ fs path. made fs path (fs.node path);
  unlink = λ fs path. removed fs path (fs.node path);
  rmdir = λ fs path. rmdir_file fs path;
}

put_node-node : (fs : Files) (path : Bytes) (n : Option Node) → (put_node fs path n).node path ≡ n
unfolding put_node
put_node-node fs path n = rw ((str_eq_iff path path).1 refl)

same_str_eq : (p : Bytes) → str_eq p p ≡ true
same_str_eq p = (str_eq_iff p p).1 refl

attribute_lem :
    (fs : Files) (path key value j : Bytes)
    → in_memory.attribute (set_attribute fs path key value) path j
      ≡ (if str_eq key j then returned value else in_memory.attribute fs path j)
attribute_lem fs path key value j = elim (Bool-cases (str_eq key j)) [
  | inl e ↦ rw (same_str_eq path, e)
  | inr e ↦ rw (same_str_eq path, e)
]

abbrev pub value_or : {A : Type 0} → A → Call A → A
value_or a (failed e) = a
value_or a (returned b) = b

absent : Stat
absent = record { is_dir = false; size = 0 }

empty_file :
    (n : Option Node) (body : Bytes)
    → stat_node n ≡ returned (record { is_dir = false; size = 0 })
    → written n body ≡ some (file body)
empty_file none body h = cc
empty_file (some (directory names)) body h = let e = ap (λ c. (value_or absent c).is_dir) h in cc
empty_file (some (file [])) body h = refl
empty_file (some (file (b ∷ bs))) body h = let e = ap (λ c. (value_or absent c).size) h in cc

written-is_node : (n : Option Node) (body : Bytes) → is_node (written n body) ≡ is_node n
written-is_node none body = refl
written-is_node (some (directory names)) body = refl
written-is_node (some (file content)) body = refl

unlinked :
    (fs fs' : Files) (path : Bytes) (n : Option Node)
    → removed fs path n ≡ returned fs'
    → stat_node (fs'.node path) ≡ failed enoent
unlinked fs fs' path none h = cc
unlinked fs fs' path (some n) h =
    sym (ap (λ c. stat_node ((value_or fs c).node path)) h)
    ∙ ap stat_node (put_node-node fs path none)

still_gone :
    (fs fs' : Files) (path other : Bytes) (n : Option Node)
    → removed fs path n ≡ returned fs'
    → stat_node (fs.node other) ≡ failed enoent
    → stat_node (fs'.node other) ≡ failed enoent
unfolding put_node
still_gone fs fs' path other none h gone = cc
still_gone fs fs' path other (some n) h gone =
    sym (ap (λ c. stat_node ((value_or fs c).node other)) h)
    ∙ (elim (Bool-cases (str_eq path other)) [ inl e ↦ rw e refl | inr e ↦ rw e gone ])

dir_gone :
    (fs fs' : Files) (path other : Bytes) (n : Option Node)
    → removed_dir fs path n ≡ returned fs'
    → stat_node (fs.node other) ≡ failed enoent
    → stat_node (fs'.node other) ≡ failed enoent
dir_gone fs fs' path other none h gone = cc
dir_gone fs fs' path other (some (file content)) h gone = cc
dir_gone fs fs' path other (some (directory names)) h gone =
    still_gone fs fs' path other (some (directory names)) h gone

rmdir_gone :
    (fs fs' : Files) (path other : Bytes)
    → (str_eq path (b'/' ∷ []) ≡ true) ⊎ (str_eq path (b'/' ∷ []) ≡ false)
    → rmdir_file fs path ≡ returned fs'
    → stat_node (fs.node other) ≡ failed enoent
    → stat_node (fs'.node other) ≡ failed enoent
rmdir_gone fs fs' path other (inl e) h gone = let h' = rw e at h in cc
rmdir_gone fs fs' path other (inr e) h gone =
    dir_gone fs fs' path other (fs.node path) (rw e at h) gone

same : (fs fs' : Files) → fs'.node ≡ fs.node → SameFiles in_memory fs fs'
same fs fs' e = record {
  same_stat = λ p. ap (λ node. stat_node (node p)) e;
  same_read = λ p. ap (λ node. read_node (node p)) e;
  same_open = λ p. ap (λ node. is_node (node p)) e;
  same_entries = λ p. ap (λ node. list_node (node p)) e;
}

whole : (body : Bytes) → body ≡ stored_part (returned (length body)) body
unfolding stored_part
whole body = sym (take-length body)

pub in_memory-IsPosix : IsPosix in_memory
in_memory-IsPosix = record {
  attribute-setxattr = λ fs path key value j ok. attribute_lem fs path key value j;
  setxattr-files = λ fs path key value. same fs (set_attribute fs path key value) refl;
  chown-files = λ fs path uid gid. same fs fs refl;
  create-stat = λ fs fs' path h.
      sym (ap (λ c. stat_node ((value_or fs c).node path)) h)
      ∙ ap stat_node (put_node-node fs path (some (file [])));
  create-open = λ fs fs' path h.
      sym (ap (λ c. is_node ((value_or fs c).node path)) h)
      ∙ ap is_node (put_node-node fs path (some (file [])));
  write-stat = λ fs path body h.
      ap stat_node
        (put_node-node fs path (written (fs.node path) body) ∙ empty_file (fs.node path) body h)
      ∙ ap (λ b. returned (record { is_dir = false; size = length b })) (whole body);
  write-read = λ fs path body h.
      ap read_node
        (put_node-node fs path (written (fs.node path) body) ∙ empty_file (fs.node path) body h)
      ∙ ap returned (whole body);
  write-open = λ fs path body.
      ap is_node (put_node-node fs path (written (fs.node path) body))
      ∙ written-is_node (fs.node path) body;
  unlink-stat = λ fs fs' path h. unlinked fs fs' path (fs.node path) h;
  rmdir-stat = λ fs fs' path other h gone.
      rmdir_gone fs fs' path other (Bool-cases (str_eq path (b'/' ∷ []))) h gone;
  rmdir-root = λ fs. (other_errno, rw (same_str_eq (b'/' ∷ [])) refl);
}
