-- ===== src/Tests/FileSystem.antt =====
-- Files: src/common/attributes.c, src/handler/storage.c and src/handler/dispatch.c.
use rs_serve.Base.{
  inl, ◌≡◌, refl, true, false, Option, none, some, [], ◌∷◌, Bytes, codes, arith, if◌then◌else◌,
}
use rs_serve.CString.{str_eq}
use rs_serve.Config.{Config}
use rs_serve.User.{found}
use rs_serve.Request.{Request, get}
use rs_serve.Response.{Response}
use rs_serve.Posix.{enoent, Stat, Process}
use rs_serve.Posix.InMemory.{Node, directory, file, Files, in_memory, in_memory-IsPosix}
use rs_serve.ContentType.{join_charset, content_type_to_xattr, content_type_from_xattr}
use rs_serve.ContentType.RoundTrip.{IsMimeType, Sets, stored, content_type_from-to}
use rs_serve.Etag.{tagged, hex, get_etag}
use rs_serve.Etag.Fresh.{unset_etag, get_etag-file}
use rs_serve.Storage.{handled, Environment, matches_none}
use rs_serve.DiskPath.{make_disk_path}
use rs_serve.Storage.Put.{exists, storage_handle_put}
use rs_serve.Storage.Put.Answers.{Answer, put-stores_or_refuses}
use rs_serve.Storage.Delete.Replies.{delete-replies}
use rs_serve.Storage.Files.{IsUsable}
use rs_serve.Storage.Put.Replies.{HasType}
use rs_serve.Storage.Delete.{storage_handle_delete}
use rs_serve.Storage.Delete.Answers
use rs_serve.Storage.Files.{HoldsFile}
use rs_serve.Storage.Read.{storage_handle_get, storage_handle_head}
use rs_serve.Storage.Read.File.{head-get}
use rs_serve.Auth.Database.{Database}
use rs_serve.Authorize.Grants.{TokenPermits}
use rs_serve.Dispatch.{dispatch_storage}
use rs_serve.Dispatch.Permitted.{IsPermitted, dispatch-put, dispatch-put_replies, dispatch-get_put}
use rs_serve.Storage.Read.Keeps.{Keeps, read-Keeps}
use rs_serve.Tests.Requests.{write_request, read_request, store, write_permitted, permitted_method}

abbrev pub db_of_tokens : Database
db_of_tokens = rs_serve.Auth.Database.InMemory.in_memory

abbrev config : Config
config = record {
  scheme = codes "http";
  hostname = codes "example.com";
  auth_uri = codes "http://example.com/%s";
  home_serve_root = codes "storage";
  experimental = true;
  use_xattr = true;
}

abbrev process : Process
process = record { errno = enoent; roomy = true; behind = λ text. [] }

abbrev digest : Bytes → Bytes
digest content = 171 ∷ 205 ∷ []

abbrev pub tree : Bytes → Option Node
tree path =
    if str_eq path (codes "/home/foo/storage/contacts/bob")
    then some (file (codes "hello"))
    else some (directory [])

abbrev pub no_attributes : Bytes → Bytes → Option Bytes
no_attributes path key = none

abbrev pub files : Files
files = record { node = tree; attributes = no_attributes }

abbrev pub bob : Bytes
bob = codes "/home/foo/storage/contacts/bob"

abbrev hello : Stat
hello = record { is_dir = false; size = 5 }

get_etag-file_example :
    get_etag in_memory config process digest 1 files bob
    ≡ tagged
        (in_memory.setxattr files bob (codes "user.etag") (codes "abcd")).0
        (some (codes "abcd"))
unfolding hex str_eq
get_etag-file_example =
    get_etag-file in_memory config process digest 0 files bob (codes "hello") hello refl
      (unset_etag refl) refl refl refl refl

plain_text : IsMimeType (codes "text/plain")
plain_text = record {
  fits = record { text_only = omega arith; short = omega arith; not_full = omega arith };
  no_semicolon = omega arith;
  not_empty = λ e. cc;
}

sets :
    Sets in_memory config process in_memory-IsPosix files bob (codes "text/plain") (codes "utf-8")
sets = record { enabled = refl; sets_type = refl; sets_charset = refl }

abbrev typed_files : Files
typed_files =
    stored in_memory config process in_memory-IsPosix files bob (codes "text/plain") (codes "utf-8")

content_type_from-to_example :
    (content_type_to_xattr in_memory config process files bob (codes "text/plain; charset=utf-8")
      ≡ some typed_files)
    × (content_type_from_xattr in_memory config process typed_files bob
        ≡ some (some (codes "text/plain; charset=utf-8")))
unfolding join_charset
content_type_from-to_example =
    content_type_from-to in_memory config process in_memory-IsPosix files bob (codes "text/plain")
      (codes "utf-8") sets plain_text
      (record { text_only = omega arith; short = omega arith; not_full = omega arith })

abbrev pub environment : Environment in_memory
environment = record {
  cfg = config;
  users = λ user. found (record { uid = 1000; gid = 1000 });
  process = process;
  sha1 = digest;
  magic = λ fs path. none;
  junk = false;
  cells = λ n. 0;
  fuel = 1;
  null_header = some [];
  garbage = matches_none;
}

abbrev pub empty_response : Response
empty_response = record { status = 0; headers_out = []; buffer_out = [] }

put-stores_or_refuses_example :
    let disk = (make_disk_path (codes "storage") (codes "foo") (codes "/contacts/bob")).disk_path in
    Answer in_memory environment in_memory-IsPosix write_request disk
      (exists (in_memory.stat files disk))
      files
      (storage_handle_put in_memory environment write_request files empty_response)
put-stores_or_refuses_example =
    put-stores_or_refuses in_memory environment in_memory-IsPosix write_request files empty_response

pub usable : IsUsable in_memory environment
usable = record { attributes_used = refl; roomy = refl; deeper = 0; some_fuel = refl }

pub default-HasType : HasType in_memory environment in_memory-IsPosix write_request
unfolding rs_serve.CString.strtok
default-HasType = record {
  mime = codes "application/octet-stream";
  rest = codes " charset=binary";
  first_token = refl;
}

bob_held : HoldsFile in_memory files bob (codes "hello")
unfolding str_eq
bob_held = record { st = hello; stats = refl; regular = refl; opens = refl; reads = refl }

contacts_path :
    (make_disk_path (codes "storage") (codes "foo") (codes "/contacts/bob")).disk_path ≡ bob
unfolding make_disk_path
contacts_path = refl

head-get_example :
    (fs' : Files) × (r' : Response) × (storage_handle_get in_memory environment read_request files
        empty_response
      ≡ handled fs' r')
    × (storage_handle_head in_memory environment read_request files empty_response
        ≡ handled fs' (record r' { buffer_out = [] }))
head-get_example =
    head-get in_memory environment in_memory-IsPosix read_request files empty_response
      (codes "hello") usable refl (rw contacts_path bob_held) refl refl

delete-removes_or_keeps_example :
    rs_serve.Storage.Delete.Answers.Answer in_memory environment in_memory-IsPosix write_request
      (make_disk_path (codes "storage") (codes "foo") (codes "/contacts/bob")).disk_path
      files
      (storage_handle_delete in_memory environment write_request files empty_response)
delete-removes_or_keeps_example =
    rs_serve.Storage.Delete.Answers.delete-removes_or_keeps in_memory environment in_memory-IsPosix
      write_request files empty_response

delete-replies_example :
    (fs' : Files) × (r' : Response) × (storage_handle_delete in_memory environment write_request
        files empty_response
      ≡ handled fs' r')
delete-replies_example =
    delete-replies in_memory environment in_memory-IsPosix write_request files empty_response
      (codes "hello") usable (rw contacts_path bob_held)

read-Keeps_example :
    Keeps in_memory files
      (storage_handle_get in_memory environment read_request files empty_response)
    × Keeps in_memory files
        (storage_handle_head in_memory environment read_request files empty_response)
read-Keeps_example =
    read-Keeps in_memory environment in_memory-IsPosix read_request files empty_response

pub permitted :
    (req : Request)
    → TokenPermits db_of_tokens store req
    → req.user ≡ codes "foo"
    → IsPermitted in_memory environment db_of_tokens store req
permitted req t e = record {
  served = record {
    owner = record { uid = 1000; gid = 1000 };
    known = refl;
    not_system = omega arith;
  };
  plain_uid = omega arith;
  token = t;
}

pub write_IsPermitted : IsPermitted in_memory environment db_of_tokens store write_request
write_IsPermitted = permitted write_request write_permitted refl

pub read_IsPermitted : IsPermitted in_memory environment db_of_tokens store read_request
read_IsPermitted = permitted read_request (permitted_method get) refl

dispatch-put_replies_example :
    (fs' : Files) × (r' : Response) × (dispatch_storage in_memory environment db_of_tokens store
        write_request files
      ≡ handled fs' r')
    × Answer in_memory environment in_memory-IsPosix write_request
        (make_disk_path (codes "storage") (codes "foo") (codes "/contacts/bob")).disk_path
        (exists (
          in_memory.stat files
            (make_disk_path (codes "storage") (codes "foo") (codes "/contacts/bob")).disk_path))
        files
        (handled fs' r')
dispatch-put_replies_example =
    dispatch-put_replies in_memory environment in_memory-IsPosix db_of_tokens store write_request
      files refl write_IsPermitted usable default-HasType refl

-- A PUT that is answered with 200.
pub put_done :
    (fs1 : Files) × (r1 : Response) × (dispatch_storage in_memory environment db_of_tokens store
        write_request files
      ≡ handled fs1 r1)
    × (r1.status ≡ 200)
unfolding storage_handle_put make_disk_path str_eq get_etag
    rs_serve.ContentType.content_type_to_xattr rs_serve.CString.strtok rs_serve.User.user_get_entry
    rs_serve.ContentType.set_meta rs_serve.Posix.InMemory.put_node rs_serve.Storage.Read.etag_of
    rs_serve.ContentType.get_meta rs_serve.Attributes.get_xattr rs_serve.Dispatch.add_cors_headers
put_done = (
  _,
  _,
  dispatch-put in_memory environment db_of_tokens store write_request files refl write_IsPermitted,
  refl,
)

dispatch-get_put_example :
    (fs2 : Files) × (r3 : Response) × (dispatch_storage in_memory environment db_of_tokens store
        read_request put_done.0
      ≡ handled fs2 r3)
    × (r3.status ≡ 200)
    × (r3.buffer_out ≡ codes "hi")
dispatch-get_put_example =
    dispatch-get_put in_memory environment in_memory-IsPosix db_of_tokens store write_request
      read_request files put_done.0 put_done.1 refl refl write_IsPermitted read_IsPermitted usable
      (λ fs. refl) refl refl refl refl put_done.2 (inl put_done.3)
