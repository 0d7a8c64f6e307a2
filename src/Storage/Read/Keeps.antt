-- ===== src/Storage/Read/Keeps.antt =====
-- What GET and HEAD do to the files: handle_get_or_head of src/handler/storage.c.
use rs_serve.Base.{
  Bool, true, false, not, ◌&&◌, ◌||◌, Option, none, some, List, [], ◌∷◌, ◌++◌, ◌==◌, Bytes, codes,
  if-both,
}
use rs_serve.Request.{Request, if_none_match, is_directory}
use rs_serve.Response.{Response, res_ok, res_notfound, res_notmod, res_serverr, res_methnallowed}
use rs_serve.Posix.{Posix, Stat, Call, returned, failed, SameFiles, IsPosix}
use rs_serve.DiskPath.{make_disk_path}
use rs_serve.Etag.{Tagged, tagged, crashed, too_deep, is_dot}
use rs_serve.Etag.Fresh.{SameFiles-refl, SameFiles-trans, KeepsFiles, get_etag-KeepsFiles}
use rs_serve.Json.{Json, new_json, json_start_object}
use rs_serve.Storage.{
  Handled, handled, process_ends, hangs, out_of_fuel, Environment, reply, with_etag, or_ends,
}
use rs_serve.Storage.Read.{
  header_is, etag_of, mime_type_of, head_with_etag, serve_file_head, serve_file, finish_directory,
  list_entries, serve_directory, after_head, serve_found, serve_path, handle_get_or_head,
  storage_handle_get, storage_handle_head,
}

-- Where the handler comes to a reply, the files are the ones that it started with.
abbrev pub Keeps : (P : Posix) → P.Fs → Handled P.Fs → Type 0
Keeps P fs0 (handled fs r) = SameFiles P fs0 fs
Keeps P fs0 process_ends = Unit
Keeps P fs0 hangs = Unit
Keeps P fs0 out_of_fuel = Unit

module _ (P : Posix) (env : Environment P) (law : IsPosix P) (fs0 : P.Fs) where
  with_etag-Keeps :
      (fs : P.Fs) (path : Bytes) (null : P.Fs → Handled P.Fs) (next : P.Fs → Bytes → Handled P.Fs)
      → SameFiles P fs0 fs
      → ((fs' : P.Fs) → SameFiles P fs0 fs' → Keeps P fs0 (null fs'))
      → ((fs' : P.Fs) (etag : Bytes) → SameFiles P fs0 fs' → Keeps P fs0 (next fs' etag))
      → Keeps P fs0 (with_etag (etag_of P env fs path) null next)
  unfolding etag_of
  with_etag-Keeps fs path null next same on_null on_etag =
      from _ (get_etag-KeepsFiles P env.cfg env.process env.sha1 law env.fuel fs path)
    where
      from :
          (t : Tagged P.Fs)
          → KeepsFiles P env.cfg env.process env.sha1 law fs t
          → Keeps P fs0 (with_etag t null next)
      from (tagged fs' none) k = on_null fs' (SameFiles-trans P same k)
      from (tagged fs' (some etag)) k = on_etag fs' etag (SameFiles-trans P same k)
      from crashed k = tt
      from too_deep k = tt

  or_ends-Keeps :
      (o : Option Bytes) (next : Bytes → Handled P.Fs)
      → ((text : Bytes) → Keeps P fs0 (next text))
      → Keeps P fs0 (or_ends o next)
  or_ends-Keeps none next h = tt
  or_ends-Keeps (some text) next h = h text

  after_head-Keeps :
      (h : Handled P.Fs) (next : P.Fs → Response → Handled P.Fs)
      → Keeps P fs0 h
      → ((fs : P.Fs) (r : Response) → SameFiles P fs0 fs → Keeps P fs0 (next fs r))
      → Keeps P fs0 (after_head P env h next)
  after_head-Keeps (handled fs r) next k h =
      if-both (Keeps P fs0) (r.status == 0) (next fs r) (handled fs r) (h fs r k) k
  after_head-Keeps process_ends next k h = tt
  after_head-Keeps hangs next k h = tt
  after_head-Keeps out_of_fuel next k h = tt

  head_with_etag-Keeps :
      (req : Request) (r : Response) (path : Bytes) (st : Stat) (mime : Option Bytes) (fs : P.Fs)
      (etag : Bytes)
      → SameFiles P fs0 fs
      → Keeps P fs0 (head_with_etag P env req r path st mime fs etag)
  unfolding head_with_etag
  head_with_etag-Keeps req r path st mime fs etag same =
      if-both (Keeps P fs0) (header_is (req.headers_in if_none_match) etag) (reply fs r res_notmod)
        _ same (or_ends-Keeps (mime_type_of P env fs path mime) _ (λ text. same))

  serve_file_head-Keeps :
      (req : Request) (fs : P.Fs) (r : Response) (path : Bytes) (st : Stat) (mime : Option Bytes)
      → SameFiles P fs0 fs
      → Keeps P fs0 (serve_file_head P env req fs r path st mime)
  unfolding serve_file_head
  serve_file_head-Keeps req fs r path st mime same =
      if-both (Keeps P fs0)
        (is_directory req && not st.is_dir || not (is_directory req) && st.is_dir)
        (reply fs r res_notfound) _ same
        (with_etag-Keeps fs path (λ fs'. reply fs' r res_serverr)
          (head_with_etag P env req r path st mime) same (λ fs' s. s)
          (λ fs' etag s. head_with_etag-Keeps req r path st mime fs' etag s))

  serve_file-Keeps :
      (fs : P.Fs) (r : Response) (path : Bytes)
      → SameFiles P fs0 fs
      → Keeps P fs0 (serve_file P env fs r path)
  unfolding serve_file
  serve_file-Keeps fs r path same =
      if-both (Keeps P fs0) (P.can_open fs path) _ (reply fs r res_serverr)
        (read_case (P.read_all fs path)) same
    where
      read_case :
          (c : Call Bytes)
          → Keeps P fs0 (elim c [
            | returned content ↦
                handled fs (record r { status = res_ok; buffer_out = r.buffer_out ++ content })
            | failed e ↦ hangs
          ])
      read_case (returned content) = same
      read_case (failed e) = tt

  finish_directory-Keeps :
      (r : Response) (path : Bytes) (fs : P.Fs) (json : Json)
      → SameFiles P fs0 fs
      → Keeps P fs0 (finish_directory P env r path fs json)
  unfolding finish_directory
  finish_directory-Keeps r path fs json same =
      with_etag-Keeps fs path _ _ same (λ fs' s. s) (λ fs' etag s. s)

  list_entries-Keeps :
      (r : Response) (path : Bytes) (names : List Bytes) (dir : Bool) (fs : P.Fs) (json : Json)
      → SameFiles P fs0 fs
      → Keeps P fs0 (list_entries P env r path names dir fs json)
  unfolding list_entries
  list_entries-Keeps r path [] dir fs json same = finish_directory-Keeps r path fs json same
  list_entries-Keeps r path (name ∷ names) dir fs json same =
      if-both (Keeps P fs0) (is_dot name) (list_entries P env r path names dir fs json) _
        (list_entries-Keeps r path names dir fs json same)
        (with_etag-Keeps fs (path ++ name) (λ fs'. process_ends) _ same (λ fs' s. tt)
          (λ fs' etag s. list_entries-Keeps r path names _ fs' _ s))

  serve_directory-Keeps :
      (fs : P.Fs) (r : Response) (path : Bytes)
      → SameFiles P fs0 fs
      → Keeps P fs0 (serve_directory P env fs r path)
  unfolding serve_directory
  serve_directory-Keeps fs r path same = listed (P.entries fs path)
    where
      listed :
          (c : Call (List Bytes))
          → Keeps P fs0 (elim c [
            | failed e ↦ reply fs r res_serverr
            | returned names ↦
                list_entries P env r path names env.junk fs
                  (json_start_object (new_json env.cells r.buffer_out))
          ])
      listed (failed e) = same
      listed (returned names) = list_entries-Keeps r path names env.junk fs _ same

  serve_found-Keeps :
      (directory : Bool) (req : Request) (include_body : Bool) (fs : P.Fs) (r : Response)
      (path : Bytes) (st : Stat)
      → SameFiles P fs0 fs
      → Keeps P fs0 (serve_found P env directory req include_body fs r path st)
  unfolding serve_found
  serve_found-Keeps true req include_body fs r path st same =
      if-both (Keeps P fs0) include_body (serve_directory P env fs r path) _
        (serve_directory-Keeps fs r path same)
        (after_head-Keeps (serve_file_head P env req fs r path st (some (codes "application/json")))
          _ (serve_file_head-Keeps req fs r path st (some (codes "application/json")) same)
          (λ fs' r' s. s))
  serve_found-Keeps false req include_body fs r path st same =
      after_head-Keeps (serve_file_head P env req fs r path st none) _
        (serve_file_head-Keeps req fs r path st none same)
        (λ fs' r' s.
          if-both (Keeps P fs0) include_body (serve_file P env fs' r' path) (reply fs' r' res_ok)
            (serve_file-Keeps fs' r' path s) s)

  serve_path-Keeps :
      (req : Request) (include_body : Bool) (fs : P.Fs) (r : Response) (path : Bytes)
      (c : Call Stat)
      → SameFiles P fs0 fs
      → Keeps P fs0 (serve_path P env req include_body fs r path c)
  unfolding serve_path
  serve_path-Keeps req include_body fs r path (failed e) same = same
  serve_path-Keeps req include_body fs r path (returned st) same =
      serve_found-Keeps (is_directory req) req include_body fs r path st same

module _ (P : Posix) (env : Environment P) (law : IsPosix P) where
  pub handle_get_or_head-Keeps :
      (req : Request) (include_body : Bool) (fs : P.Fs) (r : Response)
      → Keeps P fs (handle_get_or_head P env req include_body fs r)
  unfolding handle_get_or_head
  handle_get_or_head-Keeps req include_body fs r =
      let path = (make_disk_path env.cfg.home_serve_root req.user req.path).disk_path in
      serve_path-Keeps P env law fs req include_body fs r path (P.stat fs path)
        (SameFiles-refl P fs)

  -- GET and HEAD, of files and of directories, change no file and no directory, whatever they reply.
  pub read-Keeps :
      (req : Request) (fs : P.Fs) (r : Response)
      → Keeps P fs (storage_handle_get P env req fs r)
        × Keeps P fs (storage_handle_head P env req fs r)
  unfolding storage_handle_get storage_handle_head
  read-Keeps req fs r = (
    handle_get_or_head-Keeps req true fs r,
    if-both (Keeps P fs) env.cfg.experimental (handle_get_or_head P env req false fs r)
        (reply fs r res_methnallowed) (handle_get_or_head-Keeps req false fs r)
        (SameFiles-refl P fs),
  )
