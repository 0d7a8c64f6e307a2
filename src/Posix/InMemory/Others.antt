-- ===== src/Posix/InMemory/Others.antt =====
-- The calls of the file system in memory, on the files that they do not name.
use rs_serve.Base.{
  ◌⊎◌, ◌≡◌, refl, sym, ap, ◌∙◌, inl, inr, false, Option, none, some, [], ◌∷◌, Bytes, Bool-cases,
}
use rs_serve.CString.{str_eq}
use rs_serve.CString.Laws.{str_eq_iff}
use rs_serve.Posix.{Call, returned}
use rs_serve.Posix.InMemory.{
  Node, directory, file, Files, put_node, stat_node, read_node, is_node, made, removed, removed_dir,
  rmdir_file, value_or, in_memory,
}
use rs_serve.Storage.Files.{HoldsFile}
use rs_serve.Storage.Others.{IsForDirectories, AreApart}

Node-HoldsFile :
    (fs fs' : Files) (other content : Bytes)
    → fs'.node other ≡ fs.node other
    → HoldsFile in_memory fs other content
    → HoldsFile in_memory fs' other content
Node-HoldsFile fs fs' other content same h = record {
  st = h.st;
  stats = ap stat_node same ∙ h.stats;
  regular = h.regular;
  opens = ap is_node same ∙ h.opens;
  reads = ap read_node same ∙ h.reads;
}

put_node-other :
    (fs : Files) (path other : Bytes) (n : Option Node)
    → str_eq path other ≡ false
    → (put_node fs path n).node other ≡ fs.node other
unfolding put_node
put_node-other fs path other n apart = rw apart refl

put-HoldsFile :
    (fs fs' : Files) (path other content : Bytes) (n : Option Node)
    → str_eq path other ≡ false
    → Call.returned (put_node fs path n) ≡ returned fs'
    → HoldsFile in_memory fs other content
    → HoldsFile in_memory fs' other content
put-HoldsFile fs fs' path other content n apart h has =
    Node-HoldsFile fs fs' other content
      (sym (ap (λ c. (value_or fs c).node other) h) ∙ put_node-other fs path other n apart) has

-- A path with no node, or with a directory, names no regular file.
not_file :
    (fs : Files) (path other content : Bytes)
    → HoldsFile in_memory fs other content
    → ((fs.node path ≡ none) ⊎ ((names : _) × (fs.node path ≡ some (directory names))))
    → str_eq path other ≡ false
not_file fs path other content has what = elim (Bool-cases (str_eq path other)) [
  | inr e ↦ e
  | inl e ↦
      let same : path ≡ other = (str_eq_iff path other).0 e in
      let reads = has.reads in absurd (from what (ap (λ p. read_node (fs.node p)) same ∙ reads))
]
  where
    from :
        ((fs.node path ≡ none) ⊎ ((names : _) × (fs.node path ≡ some (directory names))))
        → ¬ (read_node (fs.node path) ≡ returned content)
    from (inl e) r = let r' = rw e at r in cc
    from (inr (names, e)) r = let r' = rw e at r in cc

mkdir_other :
    (fs fs' : Files) (path other content : Bytes) (n : Option Node)
    → fs.node path ≡ n
    → made fs path n ≡ returned fs'
    → HoldsFile in_memory fs other content
    → HoldsFile in_memory fs' other content
mkdir_other fs fs' path other content none e h has =
    put-HoldsFile fs fs' path other content (some (directory []))
      (not_file fs path other content has (inl e)) h has
mkdir_other fs fs' path other content (some n) e h has = cc

removed_dir_other :
    (fs fs' : Files) (path other content : Bytes) (n : Option Node)
    → fs.node path ≡ n
    → removed_dir fs path n ≡ returned fs'
    → HoldsFile in_memory fs other content
    → HoldsFile in_memory fs' other content
removed_dir_other fs fs' path other content none e h has = cc
removed_dir_other fs fs' path other content (some (file c)) e h has = cc
removed_dir_other fs fs' path other content (some (directory names)) e h has =
    put-HoldsFile fs fs' path other content none
      (not_file fs path other content has (inr (names, e))) h has

rmdir_other :
    (fs fs' : Files) (path other content : Bytes)
    → rmdir_file fs path ≡ returned fs'
    → HoldsFile in_memory fs other content
    → HoldsFile in_memory fs' other content
rmdir_other fs fs' path other content h has = elim (Bool-cases (str_eq path (b'/' ∷ []))) [
  | inl e ↦ let h' = rw e at h in cc
  | inr e ↦ removed_dir_other fs fs' path other content (fs.node path) refl (rw e at h) has
]

pub in_memory-IsForDirectories : IsForDirectories in_memory
in_memory-IsForDirectories = record {
  mkdir-file = λ fs fs' path other content h has.
      mkdir_other fs fs' path other content (fs.node path) refl h has;
  rmdir-file = λ fs fs' path other content h has. rmdir_other fs fs' path other content h has;
}

unlink_other :
    (fs fs' : Files) (path other content : Bytes) (n : Option Node)
    → str_eq path other ≡ false
    → removed fs path n ≡ returned fs'
    → HoldsFile in_memory fs other content
    → HoldsFile in_memory fs' other content
unlink_other fs fs' path other content none apart h has = cc
unlink_other fs fs' path other content (some n) apart h has =
    put-HoldsFile fs fs' path other content none apart h has

-- There are no links: two paths name two files.
pub in_memory-AreApart :
    (path other : Bytes) → str_eq path other ≡ false → AreApart in_memory path other
in_memory-AreApart path other apart = record {
  create-other =
      λ fs fs' content h has. put-HoldsFile fs fs' path other content (some (file [])) apart h has;
  write-other = λ fs body content has.
      put-HoldsFile fs (in_memory.write fs path body).0 path other content _ apart refl has;
  unlink-other =
      λ fs fs' content h has. unlink_other fs fs' path other content (fs.node path) apart h has;
}
