-- ===== src/Tests/Spared.antt =====
-- A file beside the one that a request names: src/handler/storage.c and src/process/main.c.
use rs_serve.Base.{◌≡◌, refl, some, [], ◌∷◌, Bytes, codes, if◌then◌else◌, Option, false}
use rs_serve.CString.{str_eq}
use rs_serve.Posix.InMemory.{Node, file, Files, in_memory, in_memory-IsPosix}
use rs_serve.Posix.InMemory.Others.{in_memory-IsForDirectories, in_memory-AreApart}
use rs_serve.Storage.Files.{HoldsFile}
use rs_serve.Storage.Others.{AreApart}
use rs_serve.Storage.{handled, matches_none}
use rs_serve.Response.{Response}
use rs_serve.Dispatch.{dispatch_storage}
use rs_serve.DiskPath.{make_disk_path}
use rs_serve.Dispatch.Permitted.{dispatch-put_replies}
use rs_serve.Server.{handle_storage}
use rs_serve.Server.Runs.{starts, State, start_step, Runs, stays, steps}
use rs_serve.Server.Spares.{Runs-spares}
use rs_serve.Tests.Requests.{write_request, store}
use rs_serve.Tests.FileSystem.{
  db_of_tokens, environment, tree, no_attributes, write_IsPermitted, usable, default-HasType,
}

abbrev eve : Bytes
eve = codes "/home/foo/storage/contacts/eve"

abbrev tree_with_eve : Bytes → Option Node
tree_with_eve path = if str_eq path eve then some (file (codes "secret")) else tree path

abbrev two_files : Files
two_files = record { node = tree_with_eve; attributes = no_attributes }

eve-HoldsFile : HoldsFile in_memory two_files eve (codes "secret")
unfolding str_eq
eve-HoldsFile = record {
  st = record { is_dir = false; size = 6 };
  stats = refl;
  regular = refl;
  opens = refl;
  reads = refl;
}

-- A PUT of /contacts/bob, that is answered.
done :
    (fs1 : Files) × (r1 : Response) × (dispatch_storage in_memory environment db_of_tokens store
        write_request two_files
      ≡ handled fs1 r1)
done =
    let (fs1, r1, run, answer) =
      dispatch-put_replies in_memory environment in_memory-IsPosix db_of_tokens store write_request
        two_files refl write_IsPermitted usable default-HasType refl in
    (fs1, r1, run)

abbrev before : State in_memory db_of_tokens
before = record { request_count = 0; fs = two_files; db = store }

abbrev after : State in_memory db_of_tokens
after = record {
  request_count =
      (handle_storage in_memory environment db_of_tokens store 0 matches_none write_request
        two_files).0;
  fs = done.0;
  db = store;
}

run : Runs in_memory environment db_of_tokens 0 before (starts write_request ∷ []) 1 after
unfolding handle_storage
run =
    steps 0 1 1 before after after (starts write_request) []
      (start_step 0 before matches_none write_request done.0 done.1 done.2) (stays 1 after)

other_file-AreApart :
    AreApart in_memory
      (make_disk_path (codes "storage") (codes "foo") (codes "/contacts/bob")).disk_path
      eve
unfolding make_disk_path str_eq
other_file-AreApart = in_memory-AreApart _ eve refl

Runs-spares_example : HoldsFile in_memory after.fs eve (codes "secret")
Runs-spares_example =
    Runs-spares in_memory environment in_memory-IsPosix in_memory-IsForDirectories db_of_tokens 0 1
      before after (starts write_request ∷ []) eve (codes "secret") run
      ((λ e. other_file-AreApart), tt) eve-HoldsFile
