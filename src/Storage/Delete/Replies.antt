-- ===== src/Storage/Delete/Replies.antt =====
-- When storage_handle_delete comes to a reply.
use rs_serve.Base.{
  if-both, arith, ℕ, zero, suc, ◌≡◌, refl, sym, ◌∙◌, inl, inr, Option, none, some, [], ◌∷◌, Bytes,
  codes, drop, length,
}
use rs_serve.CString.{str_eq, dirname}
use rs_serve.CString.Laws.{str_eq_iff}
use rs_serve.CString.Dirname.{IsParent, dirname-IsParent}
use rs_serve.Request.{Request, if_match, is_directory}
use rs_serve.Response.{Response, add_header}
use rs_serve.Posix.{Posix, Call, returned, failed, IsPosix}
use rs_serve.DiskPath.{DiskPath, make_disk_path}
use rs_serve.Storage.{handled, Environment}
use rs_serve.Storage.Files.{HoldsFile, get_etag-exists, IsUsable}
use rs_serve.Storage.Outcome.{Replies, Replies-handled}
use rs_serve.Storage.Read.{etag_of}
use rs_serve.Storage.Delete.{
  matches, at_dir, after_rmdir, remove_parents, after_parents, remove_empty_parents, after_unlink,
  delete_with_etag, delete_path, storage_handle_delete,
}

module _ (P : Posix) (env : Environment P) (law : IsPosix P) where
  -- The loop has come to its end.
  abbrev Ends : Option (P.Fs × ℕ) → Type 0
  Ends none = ⊥
  Ends (some end) = Unit

  after_rmdir-Ends :
      (fs : P.Fs) (c : Call P.Fs) (next : P.Fs → Option (P.Fs × ℕ))
      → ((fs' : P.Fs) → c ≡ returned fs' → Ends (next fs'))
      → Ends (after_rmdir P env fs c next)
  after_rmdir-Ends fs (returned fs') next rest = rest fs' refl
  after_rmdir-Ends fs (failed e) next rest = tt

  root-Ends :
      (fuel : ℕ) (root dir : Bytes) (fs : P.Fs)
      → dir ≡ b'/' ∷ []
      → Ends (remove_parents P env (suc fuel) root dir fs)
  unfolding remove_parents
  root-Ends fuel root dir fs e = if-both Ends (str_eq dir (codes ".")) _ _ tt (
      after_rmdir-Ends fs (P.rmdir fs (at_dir P env root dir)) _
        (λ fs' r. absurd (not_removed (rw e at r))))
    where
      not_removed : {fs' : P.Fs} → P.rmdir fs (b'/' ∷ []) ≡ returned fs' → ⊥
      not_removed r = let e' = sym (law.rmdir-root fs).1 ∙ r in cc

  remove_parents-Ends :
      (fuel : ℕ) (root dir : Bytes) (fs : P.Fs)
      → IsParent (suc fuel) dir
      → Ends (remove_parents P env (suc fuel) root dir fs)
  unfolding remove_parents
  remove_parents-Ends fuel root dir fs (inl e) =
      let same = (str_eq_iff dir (codes ".")).1 e in rw same tt
  remove_parents-Ends fuel root dir fs (inr (inl e)) = root-Ends fuel root dir fs e
  remove_parents-Ends zero root dir fs (inr (inr (some_length, short))) = absurd (omega arith)
  remove_parents-Ends (suc fuel) root dir fs (inr (inr (some_length, short))) =
      if-both Ends (str_eq dir (codes ".")) _ _ tt (
        after_rmdir-Ends fs (P.rmdir fs (at_dir P env root dir)) _ (λ fs' r.
          remove_parents-Ends fuel root (dirname dir) fs' (shorter (dirname-IsParent dir))))
    where
      shorter : IsParent (length dir) (dirname dir) → IsParent (suc fuel) (dirname dir)
      shorter (inl e) = inl e
      shorter (inr (inl e)) = inr (inl e)
      shorter (inr (inr (n, s))) = inr (inr (n, omega (arith, s, short)))

  after_parents-Replies :
      (r : Response) (o : Option (P.Fs × ℕ)) → Ends o → Replies (after_parents P env r o)
  after_parents-Replies r none h = absurd h
  after_parents-Replies r (some end) h = tt

  -- The parents of a path without its first byte.
  parents-IsParent : (path : Bytes) → IsParent (suc (length path)) (dirname (drop 1 path))
  parents-IsParent path = longer path (dirname-IsParent (drop 1 path))
    where
      longer :
          (path : Bytes)
          → IsParent (length (drop 1 path)) (dirname (drop 1 path))
          → IsParent (suc (length path)) (dirname (drop 1 path))
      longer path (inl e) = inl e
      longer path (inr (inl e)) = inr (inl e)
      longer [] (inr (inr (n, s))) = absurd (omega (arith, s))
      longer (c ∷ path) (inr (inr (n, s))) = inr (inr (n, omega (arith, s)))

  after_unlink-Replies :
      (r : Response) (disk : DiskPath) (fs : P.Fs) (c : Call P.Fs)
      → Replies (after_unlink P env r disk fs c)
  unfolding remove_empty_parents
  after_unlink-Replies r disk fs (failed e) = tt
  after_unlink-Replies r disk fs (returned fs') =
      if-both Replies (P.can_open fs' disk.storage_root) _ _
        (after_parents-Replies r
          (remove_parents P env (suc (length disk.path)) disk.storage_root
            (dirname (drop 1 disk.path)) fs')
          (remove_parents-Ends (length disk.path) disk.storage_root (dirname (drop 1 disk.path)) fs'
            (parents-IsParent disk.path)))
        tt

  -- A DELETE of a file that can be read comes to a reply, whatever the calls of the system return: the
  -- loop that removes its empty parents ends. Extended attributes are used, and malloc leaves room for a
  -- byte behind a block.
  pub delete-replies :
      (req : Request) (fs : P.Fs) (r : Response) (content : Bytes)
      → IsUsable P env
      → HoldsFile P fs (make_disk_path env.cfg.home_serve_root req.user req.path).disk_path content
      → (fs' : P.Fs) × (r' : Response) × (storage_handle_delete P env req fs r ≡ handled fs' r')
  unfolding storage_handle_delete delete_path delete_with_etag etag_of
  delete-replies req fs r content usable h =
      let disk = make_disk_path env.cfg.home_serve_root req.user req.path in
      let (after, etag, e) =
        get_etag-exists P env.cfg env.process env.sha1 usable.deeper fs disk.disk_path content
          usable.attributes_used usable.roomy h in
      Replies-handled (storage_handle_delete P env req fs r) (
        if-both Replies (is_directory req) _ _ tt (
          rw (h.stats, h.regular, usable.some_fuel, e)
            (if-both Replies (matches (req.headers_in if_match) etag) _ _
              (after_unlink-Replies (add_header r (codes "ETag") etag) disk after
                (P.unlink after disk.disk_path))
              tt)))
