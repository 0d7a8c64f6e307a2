-- ===== src/Dispatch/Spares.antt =====
-- The files that a request does not name, by dispatch_storage of src/handler/dispatch.c.
use rs_serve.Base.{◌≡◌, refl, Bool, true, false, Option, none, some, Bytes, if◌then◌else◌, if-both}
use rs_serve.Request.{Request, Method, get, head, put, delete, options, other}
use rs_serve.Response.{Response, res_unauth}
use rs_serve.Auth.Database.{Database}
use rs_serve.Authorize.{
  Decision, granted, denied, undefined, aborted, authorize_request, is_public_read,
}
use rs_serve.Posix.{Posix, IsPosix}
use rs_serve.DiskPath.{make_disk_path}
use rs_serve.Storage.{
  Handled, handled, process_ends, hangs, out_of_fuel, Environment, Garbage, matches_scope,
  matches_none, crashes, reply,
}
use rs_serve.Storage.Files.{HoldsFile, HoldsFile-SameFiles}
use rs_serve.Storage.Read.Keeps.{Keeps, read-Keeps}
use rs_serve.Storage.Others.{IsForDirectories, AreApart, Spares}
use rs_serve.Storage.Put.Spares.{put-Spares}
use rs_serve.Storage.Delete.Spares.{delete-Spares}
use rs_serve.Dispatch.{
  add_cors_headers, verify_user, is_options, handle_method, after_authorize, after_verify,
  fresh_response, dispatch_storage,
}

-- PUT and DELETE
abbrev pub changes_file : Method → Bool
changes_file put = true
changes_file delete = true
changes_file _ = false

module _ (P : Posix) (env : Environment P) where
  -- The request does not put or delete this file.
  abbrev pub Avoids : Request → Bytes → Type 0
  Avoids req file =
      changes_file req.method ≡ true
      → AreApart P (make_disk_path env.cfg.home_serve_root req.user req.path).disk_path file

  Keeps-Spares :
      (fs : P.Fs) (file content : Bytes) (h : Handled P.Fs)
      → Keeps P fs h
      → HoldsFile P fs file content
      → Spares P file content h
  Keeps-Spares fs file content (handled fs' r) same has =
      HoldsFile-SameFiles P fs fs' file content same has
  Keeps-Spares fs file content process_ends same has = tt
  Keeps-Spares fs file content hangs same has = tt
  Keeps-Spares fs file content out_of_fuel same has = tt

  module _ (law : IsPosix P) (dirs : IsForDirectories P) (D : Database) (db : D.Db) (req : Request)
      (file content : Bytes) where
    handle_method-Spares :
        (m : Method) (fs : P.Fs) (r : Response)
        → (changes_file m ≡ true
            → AreApart P (make_disk_path env.cfg.home_serve_root req.user req.path).disk_path file)
        → HoldsFile P fs file content
        → Spares P file content (handle_method P env D db m req fs r)
    unfolding handle_method
    handle_method-Spares get fs r apart has =
        Keeps-Spares fs file content _ (read-Keeps P env law req fs r).0 has
    handle_method-Spares head fs r apart has =
        Keeps-Spares fs file content _ (read-Keeps P env law req fs r).1 has
    handle_method-Spares put fs r apart has =
        put-Spares P env law dirs req fs r file content (apart refl) has
    handle_method-Spares delete fs r apart has =
        delete-Spares P env law dirs req fs r file content (apart refl) has
    handle_method-Spares options fs r apart has = has
    handle_method-Spares other fs r apart has = has

    pub dispatch-Spares :
        (fs : P.Fs)
        → Avoids req file
        → HoldsFile P fs file content
        → Spares P file content (dispatch_storage P env D db req fs)
    unfolding dispatch_storage after_verify after_authorize
    dispatch-Spares fs apart has = verified (verify_user env.users req)
      where
        from_garbage :
            (g : Garbage)
            → Spares P file content (elim g [
              | matches_scope ↦
                  handle_method P env D db req.method req fs (add_cors_headers fresh_response)
              | matches_none ↦
                  if is_public_read req
                  then handle_method P env D db req.method req fs (add_cors_headers fresh_response)
                  else reply fs (add_cors_headers fresh_response) res_unauth
              | crashes ↦ process_ends
            ])
        from_garbage matches_scope =
            handle_method-Spares req.method fs (add_cors_headers fresh_response) apart has
        from_garbage matches_none =
            if-both (Spares P file content) (is_public_read req) _ _
              (handle_method-Spares req.method fs (add_cors_headers fresh_response) apart has) has
        from_garbage crashes = tt

        decided :
            (d : Decision)
            → Spares P file content
                (after_authorize P env D db req fs (add_cors_headers fresh_response) d)
        decided granted =
            handle_method-Spares req.method fs (add_cors_headers fresh_response) apart has
        decided denied = has
        decided undefined = from_garbage env.garbage
        decided aborted = tt

        verified :
            (o : Option _)
            → Spares P file content
                (after_verify P env D db req fs (add_cors_headers fresh_response) o)
        verified (some status) = has
        verified none =
            decided (if is_options req.method then granted else authorize_request D db req)
