-- ===== src/Storage/Delete/Answers.antt =====
-- What storage_handle_delete answers, and what it leaves in the file system.
use rs_serve.Base.{
  if-holds, if-both, ℕ, zero, suc, ◌≡◌, refl, sym, ap, ◌∙◌, inl, inr, ◌⊎◌, Bool, true, false,
  Option, none, some, Bytes, codes, if◌then◌else◌, drop, length,
}
use rs_serve.CString.{str_eq, dirname}
use rs_serve.CString.Laws.{str_eq_iff}
use rs_serve.Request.{Request, if_match, is_directory}
use rs_serve.Response.{
  Response, add_header, res_ok, res_badreq, res_notfound, res_precondition_failed, res_serverr,
}
use rs_serve.Posix.{Posix, Errno, enoent, Stat, Call, returned, failed, SameFiles, IsPosix}
use rs_serve.DiskPath.{DiskPath, make_disk_path}
use rs_serve.Etag.{Tagged, tagged, crashed, too_deep, get_etag}
use rs_serve.Etag.Fresh.{SameFiles-refl, KeepsFiles, get_etag-KeepsFiles}
use rs_serve.Storage.{Handled, handled, process_ends, hangs, Environment, with_etag, or_ends}
use rs_serve.Storage.Read.{etag_of}
use rs_serve.Storage.Delete.{
  is_not_empty, matches, at_dir, end_of_parents, after_rmdir, remove_parents, after_parents,
  remove_empty_parents, after_unlink, delete_with_etag, delete_path, storage_handle_delete,
  delete_with_null,
}

module _ (P : Posix) (env : Environment P) (law : IsPosix P) (req : Request) (disk_path : Bytes)
    (before : P.Fs) where
  -- There is no If-Match, or the file had that ETag.
  pub data MatchHeld : Type 0 where
    no_if_match : req.headers_in if_match ≡ none → MatchHeld
    same_etag :
        (etag : Bytes) (fs' : P.Fs)
        → req.headers_in if_match ≡ some etag
        → etag_of P env before disk_path ≡ tagged fs' (some etag)
        → MatchHeld

  -- The file is gone; the status tells whether the parents could be cleaned up. Or no file has changed.
  pub data Outcome (fs' : P.Fs) : ℕ → Type 0 where
    deleted :
        (status : ℕ)
        → MatchHeld
        → P.stat fs' disk_path ≡ failed enoent
        → (status ≡ res_ok) ⊎ (status ≡ res_serverr)
        → Outcome fs' status
    kept :
        (status : ℕ)
        → SameFiles P before fs'
        → (status ≡ res_badreq)
          ⊎ ((status ≡ res_notfound)
              ⊎ ((status ≡ res_precondition_failed) ⊎ (status ≡ res_serverr)))
        → Outcome fs' status

  abbrev pub Answer : Handled P.Fs → Type 0
  Answer (handled fs' r) = Outcome fs' r.status
  Answer process_ends = Unit
  Answer hangs = Unit
  Answer Handled.out_of_fuel = Unit

  abbrev Gone : Option (P.Fs × ℕ) → Type 0
  Gone none = Unit
  Gone (some (fs, status)) =
      (P.stat fs disk_path ≡ failed enoent) × ((status ≡ res_ok) ⊎ (status ≡ res_serverr))

  end-Gone :
      (fs : P.Fs) (e : Errno)
      → P.stat fs disk_path ≡ failed enoent
      → Gone (end_of_parents P env fs e)
  end-Gone fs e gone = (gone, either (is_not_empty e))
    where
      either :
          (b : Bool)
          → ((if b then res_ok else res_serverr) ≡ res_ok)
            ⊎ ((if b then res_ok else res_serverr) ≡ res_serverr)
      either true = inl refl
      either false = inr refl

  after_rmdir-Gone :
      (fs : P.Fs) (path : Bytes) (c : Call P.Fs) (next : P.Fs → Option (P.Fs × ℕ))
      → P.rmdir fs path ≡ c
      → P.stat fs disk_path ≡ failed enoent
      → ((fs' : P.Fs) → P.stat fs' disk_path ≡ failed enoent → Gone (next fs'))
      → Gone (after_rmdir P env fs c next)
  after_rmdir-Gone fs path (returned fs') next e gone rest =
      rest fs' (law.rmdir-stat fs fs' path disk_path e gone)
  after_rmdir-Gone fs path (failed x) next e gone rest = end-Gone fs x gone

  remove_parents-Gone :
      (fuel : ℕ) (root dir_path : Bytes) (fs : P.Fs)
      → P.stat fs disk_path ≡ failed enoent
      → Gone (remove_parents P env fuel root dir_path fs)
  unfolding remove_parents
  remove_parents-Gone zero root dir_path fs gone = tt
  remove_parents-Gone (suc fuel) root dir_path fs gone =
      if-both Gone (str_eq dir_path (codes ".")) _ _ (gone, inl refl)
        (after_rmdir-Gone fs (at_dir P env root dir_path) (P.rmdir fs (at_dir P env root dir_path))
          _ refl gone (λ fs' gone'. remove_parents-Gone fuel root (dirname dir_path) fs' gone'))

  after_parents-Answer :
      (r : Response) (o : Option (P.Fs × ℕ)) → MatchHeld → Gone o → Answer (after_parents P env r o)
  after_parents-Answer r none held gone = tt
  after_parents-Answer r (some (fs, status)) held (gone, s) = deleted status held gone s

  remove_empty_parents-Answer :
      (r : Response) (disk : DiskPath) (fs : P.Fs)
      → MatchHeld
      → P.stat fs disk_path ≡ failed enoent
      → Answer (remove_empty_parents P env r disk fs)
  unfolding remove_empty_parents
  remove_empty_parents-Answer r disk fs held gone =
      if-holds Answer (P.can_open fs disk.storage_root) _ _
        (λ opened.
          after_parents-Answer r
            (remove_parents P env (suc (length disk.path)) disk.storage_root
              (dirname (drop 1 disk.path)) fs)
            held
            (remove_parents-Gone (suc (length disk.path)) disk.storage_root
              (dirname (drop 1 disk.path)) fs gone))
        (λ closed. deleted res_serverr held gone (inr refl))

  match_held :
      (o : Option Bytes) (etag : Bytes) (fs : P.Fs)
      → req.headers_in if_match ≡ o
      → etag_of P env before disk_path ≡ tagged fs (some etag)
      → matches o etag ≡ true
      → MatchHeld
  match_held none etag fs h e m = no_if_match h
  match_held (some val) etag fs h e m =
      same_etag etag fs (h ∙ ap some (sym ((str_eq_iff etag val).0 m))) e

module _ (P : Posix) (env : Environment P) (law : IsPosix P) (req : Request) (disk : DiskPath)
    (before : P.Fs) where
  after_unlink-Answer :
      (r : Response) (fs : P.Fs) (c : Call P.Fs)
      → P.unlink fs disk.disk_path ≡ c
      → SameFiles P before fs
      → MatchHeld P env law req disk.disk_path before
      → Answer P env law req disk.disk_path before (after_unlink P env r disk fs c)
  after_unlink-Answer r fs (returned fs') e same held =
      remove_empty_parents-Answer P env law req disk.disk_path before r disk fs' held
        (law.unlink-stat fs fs' disk.disk_path e)
  after_unlink-Answer r fs (failed x) e same held = kept res_serverr same (inr (inr (inr refl)))

  delete_with_etag-Answer :
      (r : Response) (fs : P.Fs) (etag : Bytes)
      → SameFiles P before fs
      → etag_of P env before disk.disk_path ≡ tagged fs (some etag)
      → Answer P env law req disk.disk_path before (delete_with_etag P env req r disk fs etag)
  unfolding delete_with_etag
  delete_with_etag-Answer r fs etag same e =
      if-holds (Answer P env law req disk.disk_path before) (matches (req.headers_in if_match) etag)
        _ _
        (λ held.
          after_unlink-Answer (add_header r (codes "ETag") etag) fs (P.unlink fs disk.disk_path)
            refl same
            (match_held P env law req disk.disk_path before (req.headers_in if_match) etag fs refl e
              held))
        (λ differs. kept res_precondition_failed same (inr (inr (inl refl))))

  delete_with_null-Answer :
      (r : Response) (fs : P.Fs) (o : Option Bytes)
      → req.headers_in if_match ≡ o
      → SameFiles P before fs
      → Answer P env law req disk.disk_path before (delete_with_null P env req r disk fs o)
  unfolding delete_with_null
  delete_with_null-Answer r fs (some val) h same = tt
  delete_with_null-Answer r fs none h same = null_header env.null_header
    where
      null_header :
          (o : Option Bytes)
          → Answer P env law req disk.disk_path before (
              or_ends o (λ null.
                after_unlink P env
                  (add_header r (codes "ETag") null)
                  disk
                  fs
                  (P.unlink fs disk.disk_path)))
      null_header none = tt
      null_header (some null) =
          after_unlink-Answer (add_header r (codes "ETag") null) fs (P.unlink fs disk.disk_path)
            refl same (no_if_match h)

  tagged-Answer :
      (r : Response) (t : Tagged P.Fs)
      → KeepsFiles P env.cfg env.process env.sha1 law before t
      → etag_of P env before disk.disk_path ≡ t
      → Answer P env law req disk.disk_path before (
          with_etag t
            (λ fs. delete_with_null P env req r disk fs (req.headers_in if_match))
            (delete_with_etag P env req r disk))
  tagged-Answer r (tagged fs none) same e =
      delete_with_null-Answer r fs (req.headers_in if_match) refl same
  tagged-Answer r (tagged fs (some etag)) same e = delete_with_etag-Answer r fs etag same e
  tagged-Answer r crashed same e = tt
  tagged-Answer r too_deep same e = tt

  delete_path-Answer :
      (r : Response) (c : Call Stat)
      → Answer P env law req disk.disk_path before (delete_path P env req r disk before c)
  unfolding delete_path etag_of
  delete_path-Answer r (failed e) = kept res_notfound (SameFiles-refl P before) (inr (inl refl))
  delete_path-Answer r (returned st) =
      if-holds (Answer P env law req disk.disk_path before) st.is_dir _ _
        (λ directory. kept res_badreq (SameFiles-refl P before) (inl refl))
        (λ is_file.
          tagged-Answer r (get_etag P env.cfg env.process env.sha1 env.fuel before disk.disk_path)
            (get_etag-KeepsFiles P env.cfg env.process env.sha1 law env.fuel before disk.disk_path)
            refl)

module _ (P : Posix) (env : Environment P) (law : IsPosix P) where
  -- A DELETE that replies has removed the file, with no If-Match or one that was the ETag of the file,
  -- and answers 200, or 500 if its parents could not be cleaned up; or it has changed no file, and
  -- answers 400, 404, 412 or 500.
  pub delete-removes_or_keeps :
      (req : Request) (fs : P.Fs) (r : Response)
      → Answer P env law req
          (make_disk_path env.cfg.home_serve_root req.user req.path).disk_path
          fs
          (storage_handle_delete P env req fs r)
  unfolding storage_handle_delete
  delete-removes_or_keeps req fs r =
      let disk = make_disk_path env.cfg.home_serve_root req.user req.path in
      if-holds (Answer P env law req disk.disk_path fs) (is_directory req) _ _
        (λ directory. kept res_badreq (SameFiles-refl P fs) (inl refl))
        (λ is_file. delete_path-Answer P env law req disk fs r (P.stat fs disk.disk_path))
