-- ===== src/Storage/Read.antt =====
-- GET and HEAD: handle_get_or_head, serve_directory, serve_file_head and serve_file.
pub mod Head
pub mod File
pub mod Keeps
pub mod Listing
use rs_serve.Base.{
  ℕ, Bool, true, false, not, ◌&&◌, ◌||◌, Option, none, some, List, [], ◌∷◌, ◌++◌, ◌==◌, Bytes,
  codes, if◌then◌else◌,
}
use rs_serve.CString.{str_eq}
use rs_serve.Request.{Request, if_none_match, is_directory}
use rs_serve.Response.{
  Response, add_header, set_status, res_ok, res_notmod, res_notfound, res_methnallowed, res_serverr,
}
use rs_serve.Posix.{Posix, Errno, enoent, enotdir, Stat, Call, returned, failed}
use rs_serve.DiskPath.{make_disk_path}
use rs_serve.ContentType.{content_type_from_xattr}
use rs_serve.Etag.{Tagged, get_etag, is_dot}
use rs_serve.Json.{Json, new_json, json_start_object, json_end_object, json_write_key_val}
use rs_serve.CString.Decimal.{decimal}
use rs_serve.Storage.{
  Handled, handled, process_ends, hangs, Environment, reply, with_etag, or_ends, max_digits,
}

abbrev pub default_type : Bytes
default_type = codes "application/octet-stream; charset=binary"

-- errno is neither ENOENT nor ENOTDIR
abbrev pub is_failure : Errno → Bool
is_failure enoent = false
is_failure enotdir = false
is_failure _ = true

-- strcmp of an optional header with the ETag
unfoldable pub header_is : Option Bytes → Bytes → Bool
header_is none etag = false
header_is (some val) etag = str_eq val etag

module _ (P : Posix) (env : Environment P) where
  unfoldable pub etag_of : P.Fs → Bytes → Tagged P.Fs
  etag_of = get_etag P env.cfg env.process env.sha1 env.fuel

  -- Detected by the attributes, or guessed by libmagic, or defaulted to.
  unfoldable pub guess_type : P.Fs → Bytes → Option Bytes → Bytes
  guess_type fs disk_path (some mime) = mime
  guess_type fs disk_path none = elim (env.magic fs disk_path) [
    | none ↦ default_type
    | some mime ↦ mime
  ]

  unfoldable pub detected_type : P.Fs → Bytes → Option (Option Bytes) → Option Bytes
  unfolding guess_type
  detected_type fs disk_path none = none
  detected_type fs disk_path (some stored) = some (guess_type fs disk_path stored)

  unfoldable pub mime_type_of : P.Fs → Bytes → Option Bytes → Option Bytes
  unfolding detected_type
  mime_type_of fs disk_path (some mime) = some mime
  mime_type_of fs disk_path none =
      detected_type fs disk_path (content_type_from_xattr P env.cfg env.process fs disk_path)

  abbrev pub add_file_headers : Response → Bytes → ℕ → Bytes → Response
  add_file_headers r mime size etag =
      add_header
        (add_header (add_header r (codes "Content-Type") mime) (codes "Content-Length")
          (decimal max_digits size))
        (codes "ETag") etag

  -- Behind get_etag. The status 0 stands for success.
  unfoldable pub head_with_etag :
      Request → Response → Bytes → Stat → Option Bytes → P.Fs → Bytes → Handled P.Fs
  unfolding header_is mime_type_of
  head_with_etag req r disk_path st mime_type fs etag =
      if header_is (req.headers_in if_none_match) etag
      then reply fs r res_notmod
      else or_ends (mime_type_of fs disk_path mime_type)
          (λ mime. handled fs (set_status (add_file_headers r mime st.size etag) 0))

  unfoldable pub serve_file_head :
      Request → P.Fs → Response → Bytes → Stat → Option Bytes → Handled P.Fs
  unfolding head_with_etag
  serve_file_head req fs r disk_path st mime_type =
      if is_directory req && not st.is_dir || not (is_directory req) && st.is_dir
      then reply fs r res_notfound
      else with_etag (etag_of fs disk_path) (λ fs'. reply fs' r res_serverr)
          (head_with_etag req r disk_path st mime_type)

  -- An error of evbuffer_read is not 0, and the loop goes on for ever.
  unfoldable pub serve_file : P.Fs → Response → Bytes → Handled P.Fs
  serve_file fs r disk_path =
      if P.can_open fs disk_path
      then elim (P.read_all fs disk_path) [
        | returned content ↦
            handled fs (record r { status = res_ok; buffer_out = r.buffer_out ++ content })
        | failed e ↦ hangs
      ]
      else reply fs r res_serverr

  -- After the listing.
  unfoldable pub finish_directory : Response → Bytes → P.Fs → Json → Handled P.Fs
  finish_directory r disk_path fs json =
      let r' = record r { buffer_out = (json_end_object json).out } in
      with_etag (etag_of fs disk_path) (λ fs'. reply fs' r' res_serverr)
        (λ fs' etag. handled fs' (
          set_status
            (add_header
              (add_header r' (codes "Content-Type") (codes "application/json; charset=UTF-8"))
              (codes "ETag") etag)
            res_ok))

  -- `S_ISDIR(file_stat_buf.st_mode)`; a stat() that fails leaves the buffer as it was.
  abbrev pub stat_is_dir : Call Stat → Bool → Bool
  stat_is_dir (returned st) before = st.is_dir
  stat_is_dir (failed e) before = before

  -- The loop over the entries. A NULL ETag is handed to the JSON writer.
  unfoldable pub list_entries : Response → Bytes → List Bytes → Bool → P.Fs → Json → Handled P.Fs
  unfolding finish_directory
  list_entries r disk_path [] dir fs json = finish_directory r disk_path fs json
  list_entries r disk_path (name ∷ names) dir fs json =
      let full_path = disk_path ++ name in
      let dir' = stat_is_dir (P.stat fs full_path) dir in
      let skipped = list_entries r disk_path names dir fs json in
      let listed = λ (t : Tagged P.Fs).
        with_etag t (λ _. process_ends)
          (λ fs' etag.
            list_entries r disk_path names dir' fs'
              (json_write_key_val json (if dir' then name ++ (b'/' ∷ []) else name) etag)) in
      if is_dot name then skipped else listed (etag_of fs full_path)

  unfoldable pub serve_directory : P.Fs → Response → Bytes → Handled P.Fs
  unfolding list_entries
  serve_directory fs r disk_path = elim (P.entries fs disk_path) [
    | failed e ↦ reply fs r res_serverr
    | returned names ↦
        list_entries r disk_path names env.junk fs
          (json_start_object (new_json env.cells r.buffer_out))
  ]

  -- `head_status != 0 ? head_status : next`
  abbrev pub after_head : Handled P.Fs → (P.Fs → Response → Handled P.Fs) → Handled P.Fs
  after_head (handled fs r) next = if r.status == 0 then next fs r else handled fs r
  after_head process_ends next = process_ends
  after_head hangs next = hangs
  after_head Handled.out_of_fuel next = Handled.out_of_fuel

  -- The first argument is `file == NULL`.
  unfoldable pub serve_found : Bool → Request → Bool → P.Fs → Response → Bytes → Stat → Handled P.Fs
  unfolding serve_file_head serve_file serve_directory
  serve_found true req include_body fs r disk_path st =
      if include_body
      then serve_directory fs r disk_path
      else after_head (serve_file_head req fs r disk_path st (some (codes "application/json")))
          (λ fs' r'. reply fs' r' res_ok)
  serve_found false req include_body fs r disk_path st =
      after_head (serve_file_head req fs r disk_path st none)
        (λ fs' r'. if include_body then serve_file fs' r' disk_path else reply fs' r' res_ok)

  unfoldable pub serve_path : Request → Bool → P.Fs → Response → Bytes → Call Stat → Handled P.Fs
  unfolding serve_found
  serve_path req include_body fs r disk_path (failed e) =
      reply fs r (if is_failure e then res_serverr else res_notfound)
  serve_path req include_body fs r disk_path (returned st) =
      serve_found (is_directory req) req include_body fs r disk_path st

  unfoldable pub handle_get_or_head : Request → Bool → P.Fs → Response → Handled P.Fs
  unfolding serve_path
  handle_get_or_head req include_body fs r =
      let disk_path = (make_disk_path env.cfg.home_serve_root req.user req.path).disk_path in
      serve_path req include_body fs r disk_path (P.stat fs disk_path)

  unfoldable pub storage_handle_get : Request → P.Fs → Response → Handled P.Fs
  unfolding handle_get_or_head
  storage_handle_get req fs r = handle_get_or_head req true fs r

  unfoldable pub storage_handle_head : Request → P.Fs → Response → Handled P.Fs
  unfolding handle_get_or_head
  storage_handle_head req fs r =
      if env.cfg.experimental
      then handle_get_or_head req false fs r
      else reply fs r res_methnallowed
