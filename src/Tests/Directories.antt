-- ===== src/Tests/Directories.antt =====
-- Directories, and files that are deleted: src/handler/storage.c.
use rs_serve.Base.{◌≡◌, refl, Option, none, some, [], ◌∷◌, Bytes, codes, if◌then◌else◌}
use rs_serve.CString.{str_eq}
use rs_serve.Request.{Request, delete}
use rs_serve.Response.{Response, set_status}
use rs_serve.Posix.InMemory.{Node, directory, Files, in_memory, in_memory-IsPosix}
use rs_serve.Etag.{get_etag}
use rs_serve.DiskPath.{make_disk_path}
use rs_serve.Storage.{handled, Environment}
use rs_serve.Storage.Delete.{storage_handle_delete}
use rs_serve.Dispatch.{dispatch_storage, add_cors_headers, fresh_response}
use rs_serve.Dispatch.Permitted.{IsPermitted, dispatch-delete}
use rs_serve.Dispatch.Deleted.{dispatch-delete_get}
use rs_serve.Tests.Requests.{write_request, read_request, store, permitted_method}
use rs_serve.Tests.FileSystem.{
  tree, no_attributes, files, environment, db_of_tokens, read_IsPermitted, permitted,
}

abbrev contacts_tree : Bytes → Option Node
contacts_tree path =
    if str_eq path (codes "/home/foo/storage/contacts/")
    then some (directory (codes "." ∷ codes "bob" ∷ []))
    else tree path

abbrev contacts_files : Files
contacts_files = record { node = contacts_tree; attributes = no_attributes }

abbrev deeper : Environment in_memory
deeper = record environment { fuel = 2 }

abbrev list_request : Request
list_request = record read_request { path = codes "/contacts/"; file = none }

contacts_directory :
    (make_disk_path (codes "storage") (codes "foo") (codes "/contacts/")).disk_path
    ≡ codes "/home/foo/storage/contacts/"
unfolding make_disk_path
contacts_directory = refl

contacts_stat :
    contacts_files.node
      (make_disk_path (codes "storage") (codes "foo") (codes "/contacts/")).disk_path
    ≡ some (directory (codes "." ∷ codes "bob" ∷ []))
unfolding str_eq
contacts_stat = rw contacts_directory refl

abbrev delete_request : Request
delete_request = record write_request { method = delete }

delete_IsPermitted : IsPermitted in_memory environment db_of_tokens store delete_request
delete_IsPermitted = permitted delete_request (permitted_method delete) refl

delete_done :
    (fs1 : Files) × (r1 : Response) × (dispatch_storage in_memory environment db_of_tokens store
        delete_request files
      ≡ handled fs1 r1)
    × (r1.status ≡ 200)
unfolding storage_handle_delete make_disk_path str_eq get_etag rs_serve.ContentType.set_meta
    rs_serve.ContentType.get_meta rs_serve.Attributes.get_xattr rs_serve.Storage.Read.etag_of
    rs_serve.Dispatch.add_cors_headers rs_serve.Posix.InMemory.put_node rs_serve.CString.dirname
delete_done = (
  _,
  _,
  dispatch-delete in_memory environment db_of_tokens store delete_request files refl
      delete_IsPermitted,
  refl,
)

dispatch-delete_get_example :
    dispatch_storage in_memory environment db_of_tokens store read_request delete_done.0
    ≡ handled delete_done.0 (set_status (add_cors_headers fresh_response) 404)
dispatch-delete_get_example =
    dispatch-delete_get in_memory environment in_memory-IsPosix db_of_tokens store delete_request
      read_request files delete_done.0 delete_done.1 refl refl delete_IsPermitted read_IsPermitted
      refl refl delete_done.2 delete_done.3
