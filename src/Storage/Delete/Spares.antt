-- ===== src/Storage/Delete/Spares.antt =====
-- What storage_handle_delete does to the files that the request does not name.
use rs_serve.Base.{if-both, ℕ, zero, suc, ◌≡◌, refl, Option, none, some, Bytes, codes, drop, length}
use rs_serve.CString.{str_eq, dirname}
use rs_serve.Request.{Request, if_match, is_directory}
use rs_serve.Response.{Response, add_header}
use rs_serve.Posix.{Posix, Stat, Call, returned, failed, IsPosix}
use rs_serve.DiskPath.{DiskPath, make_disk_path}
use rs_serve.Storage.Files.{HoldsFile}
use rs_serve.Storage.{Handled, Environment, or_ends}
use rs_serve.Storage.Delete.{
  matches, at_dir, after_rmdir, remove_parents, after_parents, remove_empty_parents, after_unlink,
  delete_with_etag, delete_path, storage_handle_delete, delete_with_null,
}
use rs_serve.Storage.Others.{IsForDirectories, AreApart, Spares, with_etag-Spares}

module _ (P : Posix) (env : Environment P) (law : IsPosix P) (dirs : IsForDirectories P)
    (disk : DiskPath) (other content : Bytes) (apart : AreApart P disk.disk_path other) where
  abbrev Has : P.Fs → Type 0
  Has fs = HoldsFile P fs other content

  abbrev SparesAt : Handled P.Fs → Type 0
  SparesAt = Spares P other content

  abbrev HasAfter : Option (P.Fs × ℕ) → Type 0
  HasAfter none = Unit
  HasAfter (some (fs, status)) = Has fs

  after_rmdir-Has :
      (fs : P.Fs) (dir : Bytes) (c : Call P.Fs) (next : P.Fs → Option (P.Fs × ℕ))
      → P.rmdir fs dir ≡ c
      → Has fs
      → ((fs' : P.Fs) → Has fs' → HasAfter (next fs'))
      → HasAfter (after_rmdir P env fs c next)
  after_rmdir-Has fs dir (returned fs') next e has rest =
      rest fs' (dirs.rmdir-file fs fs' dir other content e has)
  after_rmdir-Has fs dir (failed x) next e has rest = has

  remove_parents-Has :
      (fuel : ℕ) (root dir_path : Bytes) (fs : P.Fs)
      → Has fs
      → HasAfter (remove_parents P env fuel root dir_path fs)
  unfolding remove_parents
  remove_parents-Has zero root dir_path fs has = tt
  remove_parents-Has (suc fuel) root dir_path fs has =
      if-both HasAfter (str_eq dir_path (codes ".")) _ _ has (
        after_rmdir-Has fs (at_dir P env root dir_path) (P.rmdir fs (at_dir P env root dir_path)) _
          refl has (λ fs' has'. remove_parents-Has fuel root (dirname dir_path) fs' has'))

  after_parents-Spares :
      (r : Response) (o : Option (P.Fs × ℕ)) → HasAfter o → SparesAt (after_parents P env r o)
  after_parents-Spares r none has = tt
  after_parents-Spares r (some (fs, status)) has = has

  remove_empty_parents-Spares :
      (r : Response) (fs : P.Fs) → Has fs → SparesAt (remove_empty_parents P env r disk fs)
  unfolding remove_empty_parents
  remove_empty_parents-Spares r fs has =
      if-both SparesAt (P.can_open fs disk.storage_root) _ _
        (after_parents-Spares r
          (remove_parents P env (suc (length disk.path)) disk.storage_root
            (dirname (drop 1 disk.path)) fs)
          (remove_parents-Has (suc (length disk.path)) disk.storage_root
            (dirname (drop 1 disk.path)) fs has))
        has

  after_unlink-Spares :
      (r : Response) (fs : P.Fs) (c : Call P.Fs)
      → P.unlink fs disk.disk_path ≡ c
      → Has fs
      → SparesAt (after_unlink P env r disk fs c)
  after_unlink-Spares r fs (failed e) h has = has
  after_unlink-Spares r fs (returned fs') h has =
      remove_empty_parents-Spares r fs' (apart.unlink-other fs fs' content h has)

  delete_with_etag-Spares :
      (req : Request) (r : Response) (fs : P.Fs) (etag : Bytes)
      → Has fs
      → SparesAt (delete_with_etag P env req r disk fs etag)
  unfolding delete_with_etag
  delete_with_etag-Spares req r fs etag has =
      if-both SparesAt (matches (req.headers_in if_match) etag) _ _
        (after_unlink-Spares (add_header r (codes "ETag") etag) fs (P.unlink fs disk.disk_path) refl
          has)
        has

  delete_with_null-Spares :
      (req : Request) (r : Response) (fs : P.Fs) (o : Option Bytes)
      → Has fs
      → SparesAt (delete_with_null P env req r disk fs o)
  unfolding delete_with_null
  delete_with_null-Spares req r fs (some val) has = tt
  delete_with_null-Spares req r fs none has = null_header env.null_header
    where
      null_header :
          (o : Option Bytes)
          → SparesAt (
              or_ends o (λ null.
                after_unlink P env
                  (add_header r (codes "ETag") null)
                  disk
                  fs
                  (P.unlink fs disk.disk_path)))
      null_header none = tt
      null_header (some null) =
          after_unlink-Spares (add_header r (codes "ETag") null) fs (P.unlink fs disk.disk_path)
            refl has

  delete_path-Spares :
      (req : Request) (r : Response) (fs : P.Fs) (c : Call Stat)
      → Has fs
      → SparesAt (delete_path P env req r disk fs c)
  unfolding delete_path
  delete_path-Spares req r fs (failed e) has = has
  delete_path-Spares req r fs (returned st) has = if-both SparesAt st.is_dir _ _ has (
      with_etag-Spares P other content env law fs disk.disk_path _ _ has
        (λ fs' has'. delete_with_null-Spares req r fs' (req.headers_in if_match) has')
        (λ fs' etag has'. delete_with_etag-Spares req r fs' etag has'))

pub delete-Spares :
    (P : Posix) (env : Environment P) (law : IsPosix P) (dirs : IsForDirectories P) (req : Request)
    (fs : P.Fs) (r : Response) (other content : Bytes)
    → let path = (make_disk_path env.cfg.home_serve_root req.user req.path).disk_path in
      (apart : AreApart P path other)
      → HoldsFile P fs other content
      → Spares P other content (storage_handle_delete P env req fs r)
unfolding storage_handle_delete
delete-Spares P env law dirs req fs r other content apart has =
    let disk = make_disk_path env.cfg.home_serve_root req.user req.path in
    let spares = Spares P other content in
    if-both spares (is_directory req) _ _ has (
      delete_path-Spares P env law dirs disk other content apart req r fs (P.stat fs disk.disk_path)
        has)
