-- ===== src/DiskPath.antt =====
-- `make_disk_path` of src/handler/storage.c: the sanitising of a request path and the path on disk.
-- Allocation is taken to succeed.
pub mod Clean
pub mod Traversal
use rs_serve.Base.{ℕ, zero, suc, Option, none, some, List, [], ◌∷◌, ◌++◌, Bytes, codes, length}
use rs_serve.CString.{strstr}

-- `while((pos = strstr(path, needle)) != NULL)` with the `memmove` over the needle. A round
-- shortens the path, so its length is enough fuel.
unfoldable pub remove_all : ℕ → Bytes → Bytes → Bytes
unfolding strstr
remove_all zero needle path = path
remove_all (suc fuel) needle path = elim (strstr path needle) [
  | none ↦ path
  | some (before, after) ↦ remove_all fuel needle (before ++ after)
]

abbrev pub parent_segment : Bytes
parent_segment = b'/' ∷ b'.' ∷ b'.' ∷ []

abbrev pub double_slash : Bytes
double_slash = b'/' ∷ b'/' ∷ []

-- Both loops, in the order of the source.
unfoldable pub clean_path : Bytes → Bytes
unfolding remove_all
clean_path path =
    let no_parents = remove_all (length path) parent_segment path in
    remove_all (length no_parents) double_slash no_parents

pub record DiskPath : Type 0 where
  pub storage_root : Bytes
  pub disk_path : Bytes
  pub path : Bytes

-- `serve_root` is RS_HOME_SERVE_ROOT. The request's path is changed in place, so the result
-- holds it too.
unfoldable pub make_disk_path : Bytes → Bytes → Bytes → DiskPath
unfolding clean_path
make_disk_path serve_root user path =
    let cleaned = clean_path path in
    let root = codes "/home/" ++ (user ++ (b'/' ∷ serve_root)) in
    record { storage_root = root; disk_path = root ++ cleaned; path = cleaned }
