-- ===== src/Storage/Put/Replies.antt =====
-- When storage_handle_put comes to a reply.
use rs_serve.Base.{
  if-both, ℕ, ◌≡◌, refl, ◌≢◌, Bool, true, Option, none, some, [], ◌∷◌, ◌++◌, Bytes, codes,
  if◌then◌else◌, ◌&&◌,
}
use rs_serve.CString.{strtok}
use rs_serve.User.{
  Getpwnam, found, missing, failing, entry_of, Passwd, Entry, entry, user_not_found, error,
  user_get_entry,
}
use rs_serve.Request.{Request, if_match, if_none_match, content_type, is_directory}
use rs_serve.Response.{Response}
use rs_serve.Posix.{Posix, Call, returned, failed, IsPosix, stored_part}
use rs_serve.DiskPath.{DiskPath, make_disk_path}
use rs_serve.ContentType.{
  set_meta, store_content_type, store_token, content_type_to_xattr, charset_of, user_key,
  mime_type_key, charset_key,
}
use rs_serve.ContentType.Files.{content_type_to_xattr-Keeps}
use rs_serve.Storage.Files.{
  HoldsFile, HoldsFile-SameFiles, get_etag-exists, own-SameFiles, created-HoldsFile, IsUsable,
}
use rs_serve.Storage.{handled, Environment, or_ends}
use rs_serve.Storage.Outcome.{Replies, Replies-handled}
use rs_serve.Storage.Read.{etag_of, header_is}
use rs_serve.Storage.Put.{
  exists, make_parents, answer_put, type_of_body, write_opened, write_file, put_with_parents,
  put_as, put_unless_match, put_if_match, storage_handle_put,
}

known_entry : (g : Getpwnam) → g ≢ missing → entry_of g ≢ user_not_found
known_entry (found p) h e = cc
known_entry missing h e = h refl
known_entry failing h e = cc

module _ (P : Posix) (env : Environment P) (law : IsPosix P) where
  answer_put-Replies :
      (r : Response) (disk_path : Bytes) (existed : Bool) (mime : Bytes) (fs : P.Fs)
      (content : Bytes)
      → IsUsable P env
      → HoldsFile P fs disk_path content
      → Replies (answer_put P env r disk_path existed mime fs)
  unfolding answer_put etag_of
  answer_put-Replies r disk_path existed mime fs content usable h =
      let (fs', etag, e) =
        get_etag-exists P env.cfg env.process env.sha1 usable.deeper fs disk_path content
          usable.attributes_used usable.roomy h in
      rw (h.stats, usable.some_fuel, e) tt

  -- The header field Content-Type, or its default, has a token before the first `;`.
  pub record HasType (req : Request) : Type 0 where
    pub mime : Bytes
    pub rest : Bytes
    pub first_token :
        strtok b';' (type_of_body P env (req.headers_in content_type)) ≡ some (mime, rest)

  content_type-set :
      (fs : P.Fs) (path : Bytes) (req : Request)
      → env.cfg.use_xattr ≡ true
      → HasType req
      → (fs' : P.Fs) × (content_type_to_xattr P env.cfg env.process fs path
            (type_of_body P env (req.headers_in content_type))
          ≡ some fs')
  unfolding content_type_to_xattr store_token store_content_type set_meta
  content_type-set fs path req x t = (
    (P.setxattr (P.setxattr fs path (user_key mime_type_key) (t.mime ++ (0 ∷ []))).0 path
        (user_key charset_key) (charset_of t.rest ++ (0 ∷ []))).0,
    rw (t.first_token, x),
  )

  content_type-Replies :
      (req : Request) (r : Response) (disk_path : Bytes) (existed : Bool) (fs : P.Fs)
      (content : Bytes)
      → IsUsable P env
      → HasType req
      → HoldsFile P fs disk_path content
      → let mime = type_of_body P env (req.headers_in content_type) in
        Replies (
          or_ends
            (content_type_to_xattr P env.cfg env.process fs disk_path mime)
            (answer_put P env r disk_path existed mime))
  content_type-Replies req r disk_path existed fs content usable t h =
      let mime = type_of_body P env (req.headers_in content_type) in
      let (fs', e) = content_type-set fs disk_path req usable.attributes_used t in
      rw e (
        answer_put-Replies r disk_path existed mime fs' content usable (
          HoldsFile-SameFiles P fs fs' disk_path content
            (rw e at (content_type_to_xattr-Keeps P env.cfg env.process law fs disk_path mime)) h))

  module _ (req : Request) (r : Response) (existed : Bool) (usable : IsUsable P env)
      (t : HasType req) where
    write_opened-Replies :
        (disk_path : Bytes) (owner : Passwd) (fs : P.Fs) (c : Call P.Fs)
        → P.create fs disk_path ≡ c
        → Replies (write_opened P env req r disk_path existed owner fs c)
    unfolding write_opened
    write_opened-Replies disk_path owner fs (failed e) h = tt
    write_opened-Replies disk_path owner fs (returned opened) h =
        let owned = if existed then opened else P.chown opened disk_path owner.uid owner.gid in
        let wrote = P.write owned disk_path req.body in
        content_type-Replies req r disk_path existed wrote.0 (stored_part wrote.1 req.body) usable t
          (created-HoldsFile P law fs opened owned disk_path req.body h
            (own-SameFiles P law existed opened disk_path owner.uid owner.gid))

    put_with_parents-Replies :
        (disk_path : Bytes) (owner : Passwd) (fs : P.Fs) (o : Option ℕ)
        → Replies (put_with_parents P env req r disk_path existed owner fs o)
    unfolding put_with_parents write_file
    put_with_parents-Replies disk_path owner fs none =
        write_opened-Replies disk_path owner fs (P.create fs disk_path) refl
    put_with_parents-Replies disk_path owner fs (some status) = tt

    put_as-Replies :
        (disk : DiskPath) (fs : P.Fs) (who : Entry)
        → who ≢ user_not_found
        → Replies (put_as P env req r disk existed fs who)
    unfolding put_as
    put_as-Replies disk fs (entry owner) known =
        let parents = make_parents P env owner disk fs in
        put_with_parents-Replies disk.disk_path owner parents.fs parents.failure
    put_as-Replies disk fs user_not_found known = absurd (known refl)
    put_as-Replies disk fs error known = tt

    put_unless_match-Replies :
        (disk : DiskPath) (fs : P.Fs)
        → env.users req.user ≢ missing
        → Replies (put_unless_match P env req r disk existed fs)
    unfolding put_unless_match user_get_entry
    put_unless_match-Replies disk fs known =
        if-both Replies (header_is (req.headers_in if_none_match) (codes "*") && existed) _ _ tt (
          put_as-Replies disk fs (entry_of (env.users req.user))
            (known_entry (env.users req.user) known))

  -- A PUT without If-Match by a known user comes to a reply, whatever the calls of the system return:
  -- it neither ends the process nor runs out of fuel. Extended attributes are used, malloc leaves room
  -- for a byte behind a block, and the content type has a token before its first `;`.
  pub put-replies :
      (req : Request) (fs : P.Fs) (r : Response)
      → IsUsable P env
      → HasType req
      → req.headers_in if_match ≡ none
      → env.users req.user ≢ missing
      → (fs' : P.Fs) × (r' : Response) × (storage_handle_put P env req fs r ≡ handled fs' r')
  unfolding storage_handle_put put_if_match
  put-replies req fs r usable t no_match known =
      let disk = make_disk_path env.cfg.home_serve_root req.user req.path in
      let existed = exists (P.stat fs disk.disk_path) in
      Replies-handled (storage_handle_put P env req fs r) (
        rw no_match (
          if-both Replies (is_directory req) _ _ tt
            (put_unless_match-Replies req r existed usable t disk fs known)))
