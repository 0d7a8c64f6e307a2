-- ===== src/Tests/Paths.antt =====
-- Paths: src/handler/storage.c, `make_disk_path`.
use rs_serve.Base.{◌≡◌, refl, codes, ◌∷◌, ◌≢◌, ◌++◌, Bytes, arith}
use rs_serve.CString.{strstr, dirname}
use rs_serve.CString.Laws.{Occurs, strstr-none}
use rs_serve.DiskPath.{parent_segment, double_slash, clean_path, make_disk_path, DiskPath}
use rs_serve.DiskPath.Clean.{IsClean, clean_path-IsClean}
use rs_serve.DiskPath.Traversal.{make_disk_path-leaves_root}

clean_test : clean_path (codes "/a/../b") ≡ codes "/a/b"
unfolding clean_path
clean_test = refl

traversal_test :
    (make_disk_path (codes "storage") (codes "bob") (codes "/.//./x")).disk_path
    ≡ codes "/home/bob/storage/../x"
unfolding make_disk_path
traversal_test = refl

dirname_test :
    (dirname (codes "/a/b/c") ≡ codes "/a/b")
    × (dirname (codes "/a") ≡ codes "/")
    × (dirname (codes "a/") ≡ codes ".")
unfolding dirname
dirname_test = (refl, refl, refl)

single_slashes : ¬ Occurs double_slash (codes "/a/../b")
single_slashes = strstr-none (codes "/a/../b") double_slash (unfold strstr in refl)

rest_IsClean : IsClean (b'/' ∷ codes "etc")
rest_IsClean = (
  strstr-none (codes "/etc") parent_segment (unfold strstr in refl),
  strstr-none (codes "/etc") double_slash (unfold strstr in refl),
)

clean_path-IsClean_example : IsClean (clean_path (codes "/a/../b"))
clean_path-IsClean_example = clean_path-IsClean (codes "/a/../b") single_slashes

evil_IsClean : IsClean (codes "evil/x")
evil_IsClean = (
  strstr-none (codes "evil/x") parent_segment (unfold strstr in refl),
  strstr-none (codes "evil/x") double_slash (unfold strstr in refl),
)

abbrev evil : DiskPath
evil = make_disk_path (codes "storage") (codes "bob") (codes "/..evil/x")

make_disk_path-leaves_root_example :
    (evil.disk_path ≡ evil.storage_root ++ codes "evil/x")
    × (evil.disk_path ≢ evil.storage_root)
    × ((below : Bytes) → evil.disk_path ≢ evil.storage_root ++ (b'/' ∷ below))
make_disk_path-leaves_root_example =
    make_disk_path-leaves_root (codes "storage") (codes "bob") b'e' (codes "vil/x") evil_IsClean
      (omega arith)
