-- ===== src/Storage/Read/File.antt =====
-- GET and HEAD of a file.
use rs_serve.Base.{ℕ, ◌≡◌, ap, ◌∙◌, Bool, true, false, none, ◌++◌, Bytes, if◌then◌else◌}
use rs_serve.Request.{Request, if_none_match, is_directory}
use rs_serve.Response.{Response, set_status, res_ok, res_methnallowed}
use rs_serve.Posix.{Posix, Stat, returned, SameFiles, IsPosix}
use rs_serve.DiskPath.{make_disk_path}
use rs_serve.Storage.{Handled, handled, reply, Environment}
use rs_serve.Storage.Files.{HoldsFile, HoldsFile-SameFiles, IsUsable}
use rs_serve.Storage.Read.Head.{HeadServed, file-HeadServed}
use rs_serve.Storage.Read.{
  add_file_headers, serve_file_head, serve_file, after_head, serve_found, serve_path,
  handle_get_or_head, storage_handle_get, storage_handle_head,
}

module _ (P : Posix) (env : Environment P) (law : IsPosix P) where
  found-after_head :
      (req : Request) (body : Bool) (fs : P.Fs) (r : Response) (path : Bytes) (st : Stat)
      → is_directory req ≡ false
      → serve_path P env req body fs r path (returned st)
        ≡ after_head P env
            (serve_file_head P env req fs r path st none)
            (λ fs' r'. if body then serve_file P env fs' r' path else reply fs' r' res_ok)
  unfolding serve_path serve_found
  found-after_head req body fs r path st is_file =
      ap (λ d. serve_found P env d req body fs r path st) is_file

  serve_file-content :
      (fs : P.Fs) (r : Response) (path content : Bytes)
      → HoldsFile P fs path content
      → serve_file P env fs r path
        ≡ handled fs (record {
          status = res_ok;
          headers_out = r.headers_out;
          buffer_out = r.buffer_out ++ content;
        })
  unfolding serve_file
  serve_file-content fs r path content h = rw (h.opens, h.reads)

  -- The reply to a read of a file: its headers, behind those of `r`, and the body that is sent.
  pub record Replied (req : Request) (fs : P.Fs) (r : Response) (size : ℕ) (body : Bytes)
      (h : Handled P.Fs) : Type 0 where
    pub after : P.Fs
    pub mime : Bytes
    pub etag : Bytes
    pub same : SameFiles P fs after
    pub replied :
        h
        ≡ handled after (record {
          status = res_ok;
          headers_out = (add_file_headers P env r mime size etag).headers_out;
          buffer_out = r.buffer_out ++ body;
        })

  get-served :
      (req : Request) (fs : P.Fs) (r : Response) (path content : Bytes)
      → IsUsable P env
      → (h : HoldsFile P fs path content) → is_directory req ≡ false
      → (head : HeadServed P env law req fs r path h.st)
      → serve_path P env req true fs r path (P.stat fs path)
        ≡ handled head.after (record {
          status = res_ok;
          headers_out = (add_file_headers P env r head.mime h.st.size head.etag).headers_out;
          buffer_out = r.buffer_out ++ content;
        })
  get-served req fs r path content usable h is_file head =
      let kept = HoldsFile-SameFiles P fs head.after path content head.same h in
      ap (serve_path P env req true fs r path) h.stats
      ∙ (found-after_head req true fs r path h.st is_file
          ∙ (ap (λ done. after_head P env done (λ fs' r'. serve_file P env fs' r' path)) head.served
              ∙ serve_file-content head.after
                  (set_status (add_file_headers P env r head.mime h.st.size head.etag) 0) path
                  content kept))

  -- A GET of a file that can be read, with extended attributes in use, a byte of room behind the blocks of
  -- malloc and without If-None-Match, is answered with 200, the headers of the file and its content, and
  -- changes no file.
  pub get-replies :
      (req : Request) (fs : P.Fs) (r : Response) (content : Bytes)
      → IsUsable P env
      → (h : HoldsFile P fs
          (make_disk_path env.cfg.home_serve_root req.user req.path).disk_path
          content)
      → is_directory req ≡ false
      → req.headers_in if_none_match ≡ none
      → Replied req fs r h.st.size content (storage_handle_get P env req fs r)
  unfolding storage_handle_get handle_get_or_head
  get-replies req fs r content usable h is_file no_match =
      let path = (make_disk_path env.cfg.home_serve_root req.user req.path).disk_path in
      let head = file-HeadServed P env law req fs r path content usable h is_file no_match in
      record {
        after = head.after;
        mime = head.mime;
        etag = head.etag;
        same = head.same;
        replied = get-served req fs r path content usable h is_file head;
      }

  head-served :
      (req : Request) (fs : P.Fs) (r : Response) (path content : Bytes)
      → IsUsable P env
      → (h : HoldsFile P fs path content) → is_directory req ≡ false
      → (head : HeadServed P env law req fs r path h.st)
      → serve_path P env req false fs r path (P.stat fs path)
        ≡ handled head.after
            (set_status (add_file_headers P env r head.mime h.st.size head.etag) res_ok)
  head-served req fs r path content usable h is_file head =
      ap (serve_path P env req false fs r path) h.stats
      ∙ (found-after_head req false fs r path h.st is_file
          ∙ ap (λ done. after_head P env done (λ fs' r'. reply fs' r' res_ok)) head.served)

  -- Where HEAD is enabled, a HEAD of a file that can be read, with extended attributes in use, a byte of
  -- room behind the blocks of malloc and without If-None-Match, leaves the file system, the status and the
  -- headers that a GET of it leaves, and no body.
  pub head-get :
      (req : Request) (fs : P.Fs) (r : Response) (content : Bytes)
      → IsUsable P env
      → env.cfg.experimental ≡ true
      → HoldsFile P fs (make_disk_path env.cfg.home_serve_root req.user req.path).disk_path content
      → is_directory req ≡ false
      → req.headers_in if_none_match ≡ none
      → (fs' : P.Fs) × (r' : Response) × (storage_handle_get P env req fs r ≡ handled fs' r')
        × (storage_handle_head P env req fs r
            ≡ handled fs' (record r' { buffer_out = r.buffer_out }))
  unfolding storage_handle_head storage_handle_get handle_get_or_head
  head-get req fs r content usable on h is_file no_match =
      let path = (make_disk_path env.cfg.home_serve_root req.user req.path).disk_path in
      let head = file-HeadServed P env law req fs r path content usable h is_file no_match in
      let r' : Response = record {
        status = res_ok;
        headers_out = (add_file_headers P env r head.mime h.st.size head.etag).headers_out;
        buffer_out = r.buffer_out ++ content;
      } in
      (
        head.after,
        r',
        get-served req fs r path content usable h is_file head,
        ap
              (λ b.
                if b
                then serve_path P env req false fs r path (P.stat fs path)
                else reply fs r res_methnallowed)
              on
            ∙ head-served req fs r path content usable h is_file head,
      )
