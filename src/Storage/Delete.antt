-- ===== src/Storage/Delete.antt =====
-- DELETE: storage_handle_delete.
pub mod Answers
pub mod Replies
pub mod Spares
use rs_serve.Base.{
  ℕ, zero, suc, Bool, true, false, Option, none, some, [], ◌∷◌, ◌++◌, ◌==◌, Bytes, codes, length,
  drop, if◌then◌else◌,
}
use rs_serve.CString.{str_eq, dirname}
use rs_serve.Request.{Request, if_match, is_directory}
use rs_serve.Response.{
  Response, add_header, res_ok, res_badreq, res_notfound, res_precondition_failed, res_serverr,
}
use rs_serve.Posix.{Posix, Errno, enotempty, eexist, Stat, Call, returned, failed}
use rs_serve.DiskPath.{DiskPath, make_disk_path}
use rs_serve.Storage.{Handled, process_ends, out_of_fuel, Environment, reply, with_etag, or_ends}
use rs_serve.Storage.Read.{etag_of}

-- ENOTEMPTY or EEXIST: a directory that still holds something
abbrev pub is_not_empty : Errno → Bool
is_not_empty enotempty = true
is_not_empty eexist = true
is_not_empty _ = false

-- If-Match, where it is given, must be the ETag.
abbrev pub matches : Option Bytes → Bytes → Bool
matches none etag = true
matches (some val) etag = str_eq etag val

module _ (P : Posix) (env : Environment P) where
  -- unlinkat(rootdirfd, dir_path, AT_REMOVEDIR): an absolute path does not go below the root.
  abbrev pub at_dir : Bytes → Bytes → Bytes
  at_dir root [] = root ++ (b'/' ∷ [])
  at_dir root (c ∷ dir_path) = if c == b'/' then c ∷ dir_path else root ++ (b'/' ∷ (c ∷ dir_path))

  abbrev pub end_of_parents : P.Fs → Errno → Option (P.Fs × ℕ)
  end_of_parents fs e = some (fs, if is_not_empty e then res_ok else res_serverr)

  abbrev pub after_rmdir : P.Fs → Call P.Fs → (P.Fs → Option (P.Fs × ℕ)) → Option (P.Fs × ℕ)
  after_rmdir fs (returned fs') next = next fs'
  after_rmdir fs (failed e) next = end_of_parents fs e

  -- The loop over the parents, from the innermost: empty ones are removed. The path is relative to
  -- the storage root; `none` stands for lack of fuel, `some (fs, status)` for its end.
  unfoldable pub remove_parents : ℕ → Bytes → Bytes → P.Fs → Option (P.Fs × ℕ)
  unfolding dirname
  remove_parents zero root dir_path fs = none
  remove_parents (suc fuel) root dir_path fs =
      let next = λ (fs' : P.Fs). remove_parents fuel root (dirname dir_path) fs' in
      if str_eq dir_path (codes ".")
      then some (fs, res_ok)
      else after_rmdir fs (P.rmdir fs (at_dir root dir_path)) next

  abbrev pub after_parents : Response → Option (P.Fs × ℕ) → Handled P.Fs
  after_parents r none = out_of_fuel
  after_parents r (some (fs, status)) = reply fs r status

  -- dirname shortens the path, whose length is the fuel.
  unfoldable pub remove_empty_parents : Response → DiskPath → P.Fs → Handled P.Fs
  unfolding remove_parents
  remove_empty_parents r disk fs =
      let relative = drop 1 disk.path in
      if P.can_open fs disk.storage_root
      then after_parents r
          (remove_parents (suc (length disk.path)) disk.storage_root (dirname relative) fs)
      else reply fs r res_serverr

  abbrev pub after_unlink : Response → DiskPath → P.Fs → Call P.Fs → Handled P.Fs
  after_unlink r disk fs (failed e) = reply fs r res_serverr
  after_unlink r disk fs (returned fs') = remove_empty_parents r disk fs'

  -- Behind get_etag.
  unfoldable pub delete_with_etag : Request → Response → DiskPath → P.Fs → Bytes → Handled P.Fs
  unfolding remove_empty_parents
  delete_with_etag req r disk fs etag =
      if matches (req.headers_in if_match) etag
      then after_unlink (add_header r (codes "ETag") etag) disk fs (P.unlink fs disk.disk_path)
      else reply fs r res_precondition_failed

  -- Behind get_etag with NULL: strcmp ends the process, and without If-Match evhtp_header_new gets it.
  unfoldable pub delete_with_null :
      Request → Response → DiskPath → P.Fs → Option Bytes → Handled P.Fs
  unfolding remove_empty_parents
  delete_with_null req r disk fs (some val) = process_ends
  delete_with_null req r disk fs none =
      or_ends env.null_header (λ null.
        after_unlink (add_header r (codes "ETag") null) disk fs (P.unlink fs disk.disk_path))

  unfoldable pub delete_path : Request → Response → DiskPath → P.Fs → Call Stat → Handled P.Fs
  unfolding delete_with_etag delete_with_null
  delete_path req r disk fs (failed e) = reply fs r res_notfound
  delete_path req r disk fs (returned st) =
      if st.is_dir
      then reply fs r res_badreq
      else with_etag (etag_of P env fs disk.disk_path)
          (λ fs'. delete_with_null req r disk fs' (req.headers_in if_match))
          (delete_with_etag req r disk)

  unfoldable pub storage_handle_delete : Request → P.Fs → Response → Handled P.Fs
  unfolding delete_path
  storage_handle_delete req fs r =
      let disk = make_disk_path env.cfg.home_serve_root req.user req.path in
      if is_directory req
      then reply fs r res_badreq
      else delete_path req r disk fs (P.stat fs disk.disk_path)
