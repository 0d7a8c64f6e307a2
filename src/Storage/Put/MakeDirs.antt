-- ===== src/Storage/Put/MakeDirs.antt =====
-- The parents that storage_handle_put creates.
use rs_serve.Base.{
  ℕ, ◌≡◌, refl, inl, inr, ◌⊎◌, Bool, true, false, Option, none, some, List, [], ◌∷◌, Bytes, codes,
  if◌then◌else◌, Bool-cases,
}
use rs_serve.CString.{str_eq, dirname}
use rs_serve.User.{Passwd}
use rs_serve.Response.{res_badreq, res_serverr}
use rs_serve.Posix.{Posix, Stat, Call, returned, failed}
use rs_serve.DiskPath.{DiskPath}
use rs_serve.Storage.{Environment}
use rs_serve.Storage.Put.{
  segments, Parents, below, made_dir, make_dir, enter_dir, unless_failed, open_dir, create_parents,
  make_parents,
}

module _ (P : Posix) (env : Environment P) where
  -- A failure to create the parents is the fault of the request or of the server.
  abbrev pub IsFailure : Option ℕ → Type 0
  IsFailure none = Unit
  IsFailure (some status) = (status ≡ res_badreq) ⊎ (status ≡ res_serverr)

  enter_dir-IsFailure :
      (fs : P.Fs) (path : Bytes) (owner : Passwd) (c : Call Stat)
      → IsFailure (enter_dir P env fs path owner c).failure
  unfolding enter_dir
  enter_dir-IsFailure fs path owner (returned st) = elim (Bool-cases st.is_dir) [
    | inl d ↦ rw d tt
    | inr f ↦ rw f (inl refl)
  ]
  enter_dir-IsFailure fs path owner (failed e) = from (make_dir P env fs path owner)
    where
      from : (c : Call P.Fs) → IsFailure (made_dir P env fs c).failure
      from (failed e') = inr refl
      from (returned fs') = tt

  unless_failed-IsFailure :
      (o : Option ℕ) (p next : Parents P.Fs)
      → IsFailure p.failure
      → IsFailure next.failure
      → IsFailure (unless_failed P env o p next).failure
  unless_failed-IsFailure none p next h k = k
  unless_failed-IsFailure (some status) p next h k = h

  open_dir-IsFailure :
      (p : Parents P.Fs) (path : Bytes)
      → IsFailure p.failure
      → IsFailure (open_dir P env p path).failure
  open_dir-IsFailure p path h =
      unless_failed-IsFailure p.failure p _ h (opened (P.can_open p.fs path))
    where
      opened : (b : Bool) → IsFailure (if b then none else some res_serverr)
      opened true = tt
      opened false = inr refl

  create_parents-IsFailure :
      (owner : Passwd) (dir : Bytes) (names : List Bytes) (fs : P.Fs)
      → IsFailure (create_parents P env owner dir names fs).failure
  unfolding create_parents
  create_parents-IsFailure owner dir [] fs = tt
  create_parents-IsFailure owner dir (name ∷ names) fs =
      let path = below P env dir name in
      let entered = open_dir P env (enter_dir P env fs path owner (P.stat fs path)) path in
      unless_failed-IsFailure entered.failure entered
        (create_parents P env owner path names entered.fs)
        (open_dir-IsFailure (enter_dir P env fs path owner (P.stat fs path)) path
          (enter_dir-IsFailure fs path owner (P.stat fs path)))
        (create_parents-IsFailure owner path names entered.fs)

  pub make_parents-IsFailure :
      (owner : Passwd) (disk : DiskPath) (fs : P.Fs)
      → IsFailure (make_parents P env owner disk fs).failure
  unfolding make_parents
  make_parents-IsFailure owner disk fs =
      elim (Bool-cases (str_eq (dirname disk.path) (codes "."))) [
        | inl e ↦ rw e tt
        | inr e ↦ elim (Bool-cases (P.can_open fs disk.storage_root)) [
          | inl o ↦
              rw (e, o)
                (create_parents-IsFailure owner disk.storage_root (segments [] (dirname disk.path))
                  fs)
          | inr o ↦ rw (e, o) (inr refl)
        ]
      ]
