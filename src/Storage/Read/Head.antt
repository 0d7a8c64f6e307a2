-- ===== src/Storage/Read/Head.antt =====
-- The headers of a file: serve_file_head.
use rs_serve.Base.{suc, ◌≡◌, refl, ap, ◌∙◌, true, false, Option, none, some, Bytes}
use rs_serve.Request.{Request, if_none_match, is_directory}
use rs_serve.Response.{Response, set_status}
use rs_serve.Posix.{Posix, Stat, SameFiles, IsPosix}
use rs_serve.Attributes.{get_xattr}
use rs_serve.ContentType.{
  get_meta, charset_read, with_charset, type_read, content_type_from_xattr, join_charset, user_key,
  mime_type_key, charset_key,
}
use rs_serve.Etag.{tagged, get_etag}
use rs_serve.Etag.Fresh.{get_etag-KeepsFiles}
use rs_serve.Storage.{handled, Environment}
use rs_serve.Storage.Files.{HoldsFile, get_meta-used, get_etag-exists, IsUsable}
use rs_serve.Storage.Read.{
  header_is, etag_of, guess_type, detected_type, mime_type_of, add_file_headers, head_with_etag,
  serve_file_head,
}

module _ (P : Posix) (env : Environment P) (law : IsPosix P) where
  -- A file has an ETag, and get_etag leaves the files as they are.
  record HasEtag (fs : P.Fs) (path : Bytes) : Type 0 where
    after : P.Fs
    etag : Bytes
    computed : etag_of P env fs path ≡ tagged after (some etag)
    same : SameFiles P fs after

  HoldsFile-HasEtag :
      (fs : P.Fs) (path content : Bytes)
      → IsUsable P env
      → HoldsFile P fs path content
      → HasEtag fs path
  unfolding etag_of
  HoldsFile-HasEtag fs path content usable h =
      let (after, etag, e) =
        get_etag-exists P env.cfg env.process env.sha1 usable.deeper fs path content
          usable.attributes_used usable.roomy h in
      record {
        after = after;
        etag = etag;
        computed =
            ap (λ fuel. get_etag P env.cfg env.process env.sha1 fuel fs path) usable.some_fuel ∙ e;
        same =
            rw e at
              (get_etag-KeepsFiles P env.cfg env.process env.sha1 law (suc usable.deeper) fs path);
      }

  with_charset-some :
      (fs : P.Fs) (path : Bytes) (o : Option Bytes)
      → env.cfg.use_xattr ≡ true
      → env.process.roomy ≡ true
      → (stored : Option Bytes) × (with_charset P env.cfg env.process fs path o ≡ some stored)
  unfolding with_charset charset_read get_meta
  with_charset-some fs path none x roomy = (none, refl)
  with_charset-some fs path (some mime) x roomy = (
    some (
        join_charset mime
          (get_xattr (P.attribute fs path (user_key charset_key)) 64 env.process.errno).text),
    ap (charset_read P env.cfg env.process mime)
        (get_meta-used P env.cfg env.process env.sha1 fs path charset_key 64 x roomy),
  )

  mime_type_of-some :
      (fs : P.Fs) (path : Bytes)
      → env.cfg.use_xattr ≡ true
      → env.process.roomy ≡ true
      → (mime : Bytes) × (mime_type_of P env fs path none ≡ some mime)
  unfolding mime_type_of content_type_from_xattr type_read detected_type
  mime_type_of-some fs path x roomy =
      let read = get_xattr (P.attribute fs path (user_key mime_type_key)) 128 env.process.errno in
      let (stored, e) = with_charset-some fs path read.text x roomy in
      (
        guess_type P env fs path stored,
        ap (detected_type P env fs path) (
            ap (type_read P env.cfg env.process fs path)
              (get_meta-used P env.cfg env.process env.sha1 fs path mime_type_key 128 x roomy)
            ∙ e),
      )

  -- What GET and HEAD set when the headers of a file are served.
  pub record HeadServed (req : Request) (fs : P.Fs) (r : Response) (path : Bytes) (st : Stat)
      : Type 0 where
    pub after : P.Fs
    pub mime : Bytes
    pub etag : Bytes
    pub same : SameFiles P fs after
    pub served :
        serve_file_head P env req fs r path st none
        ≡ handled after (set_status (add_file_headers P env r mime st.size etag) 0)

  pub file-HeadServed :
      (req : Request) (fs : P.Fs) (r : Response) (path content : Bytes)
      → IsUsable P env
      → (h : HoldsFile P fs path content) → is_directory req ≡ false
      → req.headers_in if_none_match ≡ none
      → HeadServed req fs r path h.st
  unfolding serve_file_head head_with_etag header_is
  file-HeadServed req fs r path content usable h is_file no_match =
      let has = HoldsFile-HasEtag fs path content usable h in
      let (mime, m) = mime_type_of-some has.after path usable.attributes_used usable.roomy in
      record {
        after = has.after;
        mime = mime;
        etag = has.etag;
        same = has.same;
        served = rw (is_file, h.regular, has.computed, no_match, m);
      }
