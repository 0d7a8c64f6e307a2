-- ===== src/Dispatch/Deleted.antt =====
-- A DELETE and the GET after it, by dispatch_storage of src/handler/dispatch.c.
use rs_serve.Base.{ℕ, ◌≡◌, refl, sym, ◌∙◌, inl, inr, arith, Bytes}
use rs_serve.Request.{Request, get, delete}
use rs_serve.Response.{Response, res_ok, res_notfound, set_status}
use rs_serve.Auth.Database.{Database}
use rs_serve.Posix.{Posix, enoent, failed, IsPosix}
use rs_serve.DiskPath.{make_disk_path}
use rs_serve.Storage.{handled, Environment}
use rs_serve.Storage.Read.{serve_path, handle_get_or_head, storage_handle_get}
use rs_serve.Storage.Delete.{storage_handle_delete}
use rs_serve.Storage.Delete.Answers.{Outcome, deleted, kept, delete-removes_or_keeps}
use rs_serve.Dispatch.{add_cors_headers, fresh_response, dispatch_storage}
use rs_serve.Dispatch.Permitted.{IsPermitted, dispatch-get, dispatch-delete}

module _ (P : Posix) (env : Environment P) (law : IsPosix P) where
  gone :
      (req : Request) (path : Bytes) (before fs : P.Fs) (status : ℕ)
      → Outcome P env law req path before fs status
      → status ≡ res_ok
      → P.stat fs path ≡ failed enoent
  gone req path before fs _ (deleted status match_held stat which) ok = stat
  gone req path before fs _ (kept status same (inl e)) ok = absurd (omega arith)
  gone req path before fs _ (kept status same (inr (inl e))) ok = absurd (omega arith)
  gone req path before fs _ (kept status same (inr (inr (inl e)))) ok = absurd (omega arith)
  gone req path before fs _ (kept status same (inr (inr (inr e)))) ok = absurd (omega arith)

  get-gone :
      (req : Request) (fs : P.Fs) (r : Response)
      → P.stat fs (make_disk_path env.cfg.home_serve_root req.user req.path).disk_path
        ≡ failed enoent
      → storage_handle_get P env req fs r ≡ handled fs (set_status r res_notfound)
  unfolding storage_handle_get handle_get_or_head serve_path
  get-gone req fs r e = rw e refl

  -- After a permitted DELETE that is answered with 200, a permitted GET of the same path is answered with
  -- 404, and changes nothing.
  pub dispatch-delete_get :
      (D : Database) (db : D.Db) (req req' : Request) (fs fs1 : P.Fs) (r1 : Response)
      → req.method ≡ delete
      → req'.method ≡ get
      → IsPermitted P env D db req
      → IsPermitted P env D db req'
      → req'.user ≡ req.user
      → req'.path ≡ req.path
      → dispatch_storage P env D db req fs ≡ handled fs1 r1
      → r1.status ≡ res_ok
      → dispatch_storage P env D db req' fs1
        ≡ handled fs1 (set_status (add_cors_headers fresh_response) res_notfound)
  dispatch-delete_get D db req req' fs fs1 r1 is_delete is_get p p' user path run ok =
      let r = add_cors_headers fresh_response in
      let disk = (make_disk_path env.cfg.home_serve_root req.user req.path).disk_path in
      let done : storage_handle_delete P env req fs r ≡ handled fs1 r1 =
        sym (dispatch-delete P env D db req fs is_delete p) ∙ run in
      let outcome : Outcome P env law req disk fs fs1 r1.status =
        rw done at (delete-removes_or_keeps P env law req fs r) in
      let stat = gone req disk fs fs1 r1.status outcome ok in
      dispatch-get P env D db req' fs1 is_get p' ∙ get-gone req' fs1 r (rw (user, path) stat)
