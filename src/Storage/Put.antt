-- ===== src/Storage/Put.antt =====
-- PUT: storage_handle_put.
pub mod MakeDirs
pub mod Answers
pub mod Replies
pub mod Spares
use rs_serve.Base.{
  ℕ, Bool, true, false, not, ◌&&◌, ◌||◌, Option, none, some, List, [], ◌∷◌, ◌++◌, ◌==◌, Bytes,
  codes, if◌then◌else◌,
}
use rs_serve.CString.{str_eq, dirname, break_at}
use rs_serve.User.{Passwd, Entry, entry, user_not_found, error, user_get_entry}
use rs_serve.Request.{Request, if_match, if_none_match, content_type, is_directory}
use rs_serve.Response.{
  Response, add_header, set_status, res_ok, res_created, res_badreq, res_precondition_failed,
  res_serverr,
}
use rs_serve.Posix.{Posix, Stat, Call, returned, failed}
use rs_serve.DiskPath.{DiskPath, make_disk_path}
use rs_serve.ContentType.{content_type_to_xattr}
use rs_serve.Storage.{Handled, handled, process_ends, Environment, reply, with_etag, or_ends}
use rs_serve.Storage.Read.{default_type, etag_of, header_is}

-- The tokens of strtok_r(…, "/"): what stands between slashes, empty segments left out. The first
-- argument is the segment so far.
unfoldable pub segments : Bytes → Bytes → List Bytes
segments [] [] = []
segments (s ∷ seg) [] = (s ∷ seg) ∷ []
segments [] (c ∷ cs) =
    let inside = segments (c ∷ []) cs in
    let between = segments [] cs in if c == b'/' then between else inside
segments (s ∷ seg) (c ∷ cs) =
    let inside = segments ((s ∷ seg) ++ (c ∷ [])) cs in
    let between = segments [] cs in if c == b'/' then (s ∷ seg) ∷ between else inside

-- `found` is set by a successful stat().
abbrev pub exists : Call Stat → Bool
exists (returned st) = true
exists (failed e) = false

-- The loop that creates the parents: the file system and `none`, or the status with which it fails.
pub record Parents (Fs : Type 0) : Type 0 where
  pub fs : Fs
  pub failure : Option ℕ

module _ (P : Posix) (env : Environment P) where
  abbrev pub below : Bytes → Bytes → Bytes
  below dir name = dir ++ (b'/' ∷ name)

  -- mkdirat and fchownat, whose failure is only logged
  abbrev pub make_dir : P.Fs → Bytes → Passwd → Call P.Fs
  make_dir fs path owner = elim (P.mkdir fs path) [
    | failed e ↦ failed e
    | returned fs' ↦ returned (P.chown fs' path owner.uid owner.gid)
  ]

  abbrev pub made_dir : P.Fs → Call P.Fs → Parents P.Fs
  made_dir fs (failed e) = record { fs = fs; failure = some res_serverr }
  made_dir fs (returned fs') = record { fs = fs'; failure = none }

  -- fstatat, or else mkdirat: the file system, or the status.
  unfoldable pub enter_dir : P.Fs → Bytes → Passwd → Call Stat → Parents P.Fs
  enter_dir fs path owner (returned st) = record {
    fs = fs;
    failure = if st.is_dir then none else some res_badreq;
  }
  enter_dir fs path owner (failed e) = made_dir fs (make_dir fs path owner)

  abbrev pub unless_failed : Option ℕ → Parents P.Fs → Parents P.Fs → Parents P.Fs
  unless_failed (some status) p next = p
  unless_failed none p next = next

  -- openat at the end of a round
  abbrev pub open_dir : Parents P.Fs → Bytes → Parents P.Fs
  open_dir p path =
      unless_failed p.failure p
        (record { fs = p.fs; failure = if P.can_open p.fs path then none else some res_serverr })

  unfoldable pub create_parents : Passwd → Bytes → List Bytes → P.Fs → Parents P.Fs
  unfolding enter_dir
  create_parents owner dir [] fs = record { fs = fs; failure = none }
  create_parents owner dir (name ∷ names) fs =
      let path = below dir name in
      let entered = open_dir (enter_dir fs path owner (P.stat fs path)) path in
      let next = create_parents owner path names entered.fs in
      unless_failed entered.failure entered next

  -- The block "create parent directories", after strdup.
  unfoldable pub make_parents : Passwd → DiskPath → P.Fs → Parents P.Fs
  unfolding create_parents dirname segments
  make_parents owner disk fs =
      let dir_path = dirname disk.path in
      if str_eq dir_path (codes ".")
      then record { fs = fs; failure = none }
      else if P.can_open fs disk.storage_root
      then create_parents owner disk.storage_root (segments [] dir_path) fs
      else record { fs = fs; failure = some res_serverr }

  abbrev pub stored_reply : Response → Bool → Bytes → P.Fs → Bytes → Handled P.Fs
  stored_reply r existed mime fs etag =
      reply fs (add_header (add_header r (codes "Content-Type") mime) (codes "ETag") etag)
        (if existed then res_ok else res_created)

  -- After the file is written: stat it again, and answer with its new ETag. A NULL ETag is
  -- handed to evhtp_header_new.
  unfoldable pub answer_put : Response → Bytes → Bool → Bytes → P.Fs → Handled P.Fs
  answer_put r disk_path existed mime fs =
      if exists (P.stat fs disk_path)
      then with_etag (etag_of P env fs disk_path)
          (λ fs'. or_ends env.null_header (λ null. stored_reply r existed mime fs' null))
          (λ fs' etag. stored_reply r existed mime fs' etag)
      else reply fs r res_serverr

  abbrev pub type_of_body : Option Bytes → Bytes
  type_of_body none = default_type
  type_of_body (some val) = val

  -- fchown() of a new file, the write of the body, whose result is not looked at, and its content type.
  unfoldable pub write_opened :
      Request → Response → Bytes → Bool → Passwd → P.Fs → Call P.Fs → Handled P.Fs
  unfolding answer_put
  write_opened req r disk_path existed owner fs (failed e) = reply fs r res_serverr
  write_opened req r disk_path existed owner fs (returned opened) =
      let mime = type_of_body (req.headers_in content_type) in
      let owned = if existed then opened else P.chown opened disk_path owner.uid owner.gid in
      or_ends
        (content_type_to_xattr P env.cfg env.process (P.write owned disk_path req.body).0 disk_path
          mime)
        (answer_put r disk_path existed mime)

  -- open() comes first.
  unfoldable pub write_file : Request → Response → Bytes → Bool → Passwd → P.Fs → Handled P.Fs
  unfolding write_opened
  write_file req r disk_path existed owner fs =
      write_opened req r disk_path existed owner fs (P.create fs disk_path)

  unfoldable pub put_with_parents :
      Request → Response → Bytes → Bool → Passwd → P.Fs → Option ℕ → Handled P.Fs
  unfolding write_file
  put_with_parents req r disk_path existed owner fs (some status) = reply fs r status
  put_with_parents req r disk_path existed owner fs none =
      write_file req r disk_path existed owner fs

  -- `user_entry > 0` holds of the pointer -1 too, which is then followed.
  unfoldable pub put_as : Request → Response → DiskPath → Bool → P.Fs → Entry → Handled P.Fs
  unfolding put_with_parents make_parents
  put_as req r disk existed fs (entry owner) =
      let parents = make_parents owner disk fs in
      put_with_parents req r disk.disk_path existed owner parents.fs parents.failure
  put_as req r disk existed fs user_not_found = process_ends
  put_as req r disk existed fs error = reply fs r res_serverr

  -- If-None-Match, behind If-Match.
  unfoldable pub put_unless_match : Request → Response → DiskPath → Bool → P.Fs → Handled P.Fs
  unfolding put_as header_is
  put_unless_match req r disk existed fs =
      if header_is (req.headers_in if_none_match) (codes "*") && existed
      then reply fs r res_precondition_failed
      else put_as req r disk existed fs (user_get_entry env.users (some req.user))

  -- If-Match: the ETag of an existing file is compared, a NULL one too.
  unfoldable pub put_if_match :
      Request → Response → DiskPath → Bool → P.Fs → Option Bytes → Handled P.Fs
  unfolding put_unless_match
  put_if_match req r disk existed fs none = put_unless_match req r disk existed fs
  put_if_match req r disk existed fs (some val) =
      if existed
      then with_etag (etag_of P env fs disk.disk_path) (λ _. process_ends)
          (λ fs' etag.
            if str_eq etag val
            then put_unless_match req r disk existed fs'
            else reply fs' r res_precondition_failed)
      else reply fs r res_precondition_failed

  unfoldable pub storage_handle_put : Request → P.Fs → Response → Handled P.Fs
  unfolding put_if_match
  storage_handle_put req fs r =
      let disk = make_disk_path env.cfg.home_serve_root req.user req.path in
      if is_directory req
      then reply fs r res_badreq
      else put_if_match req r disk (exists (P.stat fs disk.disk_path)) fs (req.headers_in if_match)
