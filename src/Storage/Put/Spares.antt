-- ===== src/Storage/Put/Spares.antt =====
-- What storage_handle_put does to the files that the request does not name.
use rs_serve.Base.{
  if-both, ℕ, ◌≡◌, refl, Bool, Option, none, some, List, [], ◌∷◌, Bytes, codes, if◌then◌else◌, ◌&&◌,
}
use rs_serve.CString.{str_eq, dirname}
use rs_serve.User.{Passwd, Entry, entry, user_not_found, error, user_get_entry}
use rs_serve.Request.{Request, if_match, if_none_match, content_type, is_directory}
use rs_serve.Response.{Response}
use rs_serve.Posix.{Posix, Stat, Call, returned, failed, IsPosix}
use rs_serve.DiskPath.{DiskPath, make_disk_path}
use rs_serve.ContentType.{content_type_to_xattr}
use rs_serve.ContentType.Files.{Keeps, content_type_to_xattr-Keeps}
use rs_serve.Storage.Files.{HoldsFile, HoldsFile-SameFiles, own-SameFiles}
use rs_serve.Storage.{Handled, Environment, or_ends}
use rs_serve.Storage.Read.{header_is}
use rs_serve.Storage.Put.{
  exists, segments, Parents, below, made_dir, enter_dir, unless_failed, open_dir, create_parents,
  make_parents, answer_put, type_of_body, write_opened, write_file, put_with_parents, put_as,
  put_unless_match, put_if_match, storage_handle_put, stored_reply,
}
use rs_serve.Storage.Others.{IsForDirectories, AreApart, Spares, with_etag-Spares}

module _ (P : Posix) (env : Environment P) (law : IsPosix P) (dirs : IsForDirectories P)
    (path other content : Bytes) (apart : AreApart P path other) where
  abbrev Has : P.Fs → Type 0
  Has fs = HoldsFile P fs other content

  abbrev Spares' : Handled P.Fs → Type 0
  Spares' = Spares P other content

  made_dir-Has :
      (fs : P.Fs) (dir : Bytes) (owner : Passwd) (c : Call P.Fs)
      → P.mkdir fs dir ≡ c
      → Has fs
      → Has
          (made_dir P env fs (elim c [
            | failed e ↦ failed e
            | returned fs' ↦ returned (P.chown fs' dir owner.uid owner.gid)
          ])).fs
  made_dir-Has fs dir owner (failed e) h has = has
  made_dir-Has fs dir owner (returned fs') h has =
      HoldsFile-SameFiles P fs' (P.chown fs' dir owner.uid owner.gid) other content
        (law.chown-files fs' dir owner.uid owner.gid)
        (dirs.mkdir-file fs fs' dir other content h has)

  enter_dir-Has :
      (fs : P.Fs) (dir : Bytes) (owner : Passwd) (c : Call Stat)
      → Has fs
      → Has (enter_dir P env fs dir owner c).fs
  unfolding enter_dir
  enter_dir-Has fs dir owner (returned st) has = has
  enter_dir-Has fs dir owner (failed e) has = made_dir-Has fs dir owner (P.mkdir fs dir) refl has

  unless_failed-Has :
      (o : Option ℕ) (p next : Parents P.Fs)
      → Has p.fs
      → Has next.fs
      → Has (unless_failed P env o p next).fs
  unless_failed-Has none p next h k = k
  unless_failed-Has (some status) p next h k = h

  create_parents-Has :
      (owner : Passwd) (dir : Bytes) (names : List Bytes) (fs : P.Fs)
      → Has fs
      → Has (create_parents P env owner dir names fs).fs
  unfolding create_parents
  create_parents-Has owner dir [] fs has = has
  create_parents-Has owner dir (name ∷ names) fs has =
      let sub = below P env dir name in
      let in_dir = enter_dir P env fs sub owner (P.stat fs sub) in
      let entered = open_dir P env in_dir sub in
      let has_in = enter_dir-Has fs sub owner (P.stat fs sub) has in
      let has_entered : Has entered.fs = unless_failed-Has in_dir.failure in_dir _ has_in has_in in
      unless_failed-Has entered.failure entered (create_parents P env owner sub names entered.fs)
        has_entered (create_parents-Has owner sub names entered.fs has_entered)

  make_parents-Has :
      (owner : Passwd) (disk : DiskPath) (fs : P.Fs)
      → Has fs
      → Has (make_parents P env owner disk fs).fs
  unfolding make_parents
  make_parents-Has owner disk fs has =
      if-both (λ (p : Parents P.Fs). Has p.fs) (str_eq (dirname disk.path) (codes ".")) _ _ has
        (if-both (λ (p : Parents P.Fs). Has p.fs) (P.can_open fs disk.storage_root) _ _
          (create_parents-Has owner disk.storage_root (segments [] (dirname disk.path)) fs has) has)

  answer_put-Spares :
      (r : Response) (existed : Bool) (mime : Bytes) (fs : P.Fs)
      → Has fs
      → Spares' (answer_put P env r path existed mime fs)
  unfolding answer_put
  answer_put-Spares r existed mime fs has =
      if-both Spares' (exists (P.stat fs path)) _ _
        (with_etag-Spares P other content env law fs path _ _ has
          (λ fs' has'. null_header fs' env.null_header has') (λ fs' etag has'. has'))
        has
    where
      null_header :
          (fs' : P.Fs) (o : Option Bytes)
          → Has fs'
          → Spares' (or_ends o (λ null. stored_reply P env r existed mime fs' null))
      null_header fs' none has' = tt
      null_header fs' (some null) has' = has'

  or_ends-Spares :
      (fs : P.Fs) (o : Option P.Fs) (next : P.Fs → Handled P.Fs)
      → Keeps P env.cfg env.process law fs o
      → Has fs
      → ((fs' : P.Fs) → Has fs' → Spares' (next fs'))
      → Spares' (or_ends o next)
  or_ends-Spares fs none next k has rest = tt
  or_ends-Spares fs (some fs') next k has rest =
      rest fs' (HoldsFile-SameFiles P fs fs' other content k has)

  write_opened-Spares :
      (req : Request) (r : Response) (existed : Bool) (owner : Passwd) (fs : P.Fs) (c : Call P.Fs)
      → P.create fs path ≡ c
      → Has fs
      → Spares' (write_opened P env req r path existed owner fs c)
  unfolding write_opened
  write_opened-Spares req r existed owner fs (failed e) h has = has
  write_opened-Spares req r existed owner fs (returned opened) h has =
      let owned = if existed then opened else P.chown opened path owner.uid owner.gid in
      let mime = type_of_body P env (req.headers_in content_type) in
      let written = (P.write owned path req.body).0 in
      let has_owned : Has owned =
        HoldsFile-SameFiles P opened owned other content
          (own-SameFiles P law existed opened path owner.uid owner.gid)
          (apart.create-other fs opened content h has) in
      or_ends-Spares written (content_type_to_xattr P env.cfg env.process written path mime) _
        (content_type_to_xattr-Keeps P env.cfg env.process law written path mime)
        (apart.write-other owned req.body content has_owned)
        (λ fs' has'. answer_put-Spares r existed mime fs' has')

  put_with_parents-Spares :
      (req : Request) (r : Response) (existed : Bool) (owner : Passwd) (fs : P.Fs) (o : Option ℕ)
      → Has fs
      → Spares' (put_with_parents P env req r path existed owner fs o)
  unfolding put_with_parents write_file
  put_with_parents-Spares req r existed owner fs (some status) has = has
  put_with_parents-Spares req r existed owner fs none has =
      write_opened-Spares req r existed owner fs (P.create fs path) refl has

module _ (P : Posix) (env : Environment P) (law : IsPosix P) (dirs : IsForDirectories P)
    (disk : DiskPath) (other content : Bytes) (apart : AreApart P disk.disk_path other) where
  abbrev SparesAt : Handled P.Fs → Type 0
  SparesAt = Spares P other content

  put_as-Spares :
      (req : Request) (r : Response) (existed : Bool) (fs : P.Fs) (who : Entry)
      → HoldsFile P fs other content
      → SparesAt (put_as P env req r disk existed fs who)
  unfolding put_as
  put_as-Spares req r existed fs (entry owner) has =
      let parents = make_parents P env owner disk fs in
      put_with_parents-Spares P env law dirs disk.disk_path other content apart req r existed owner
        parents.fs parents.failure
        (make_parents-Has P env law dirs disk.disk_path other content apart owner disk fs has)
  put_as-Spares req r existed fs user_not_found has = tt
  put_as-Spares req r existed fs error has = has

  put_unless_match-Spares :
      (req : Request) (r : Response) (existed : Bool) (fs : P.Fs)
      → HoldsFile P fs other content
      → SparesAt (put_unless_match P env req r disk existed fs)
  unfolding put_unless_match
  put_unless_match-Spares req r existed fs has =
      if-both SparesAt (header_is (req.headers_in if_none_match) (codes "*") && existed) _ _ has
        (put_as-Spares req r existed fs (user_get_entry env.users (some req.user)) has)

  put_if_match-Spares :
      (req : Request) (r : Response) (existed : Bool) (fs : P.Fs) (o : Option Bytes)
      → HoldsFile P fs other content
      → SparesAt (put_if_match P env req r disk existed fs o)
  unfolding put_if_match
  put_if_match-Spares req r existed fs none has = put_unless_match-Spares req r existed fs has
  put_if_match-Spares req r existed fs (some val) has =
      if-both SparesAt existed _ _
        (with_etag-Spares P other content env law fs disk.disk_path _ _ has (λ fs' has'. tt)
          (λ fs' etag has'.
            if-both SparesAt (str_eq etag val) _ _ (put_unless_match-Spares req r existed fs' has')
              has'))
        has

pub put-Spares :
    (P : Posix) (env : Environment P) (law : IsPosix P) (dirs : IsForDirectories P) (req : Request)
    (fs : P.Fs) (r : Response) (other content : Bytes)
    → let path = (make_disk_path env.cfg.home_serve_root req.user req.path).disk_path in
      (apart : AreApart P path other)
      → HoldsFile P fs other content
      → Spares P other content (storage_handle_put P env req fs r)
unfolding storage_handle_put
put-Spares P env law dirs req fs r other content apart has =
    let disk = make_disk_path env.cfg.home_serve_root req.user req.path in
    let spares = Spares P other content in
    if-both spares (is_directory req) _ _ has (
      put_if_match-Spares P env law dirs disk other content apart req r
        (exists (P.stat fs disk.disk_path)) fs (req.headers_in if_match) has)
