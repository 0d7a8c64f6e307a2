-- ===== src/Dispatch/Permitted.antt =====
-- Permitted requests, from dispatch_storage of src/handler/dispatch.c to the reply.
use rs_serve.Base.{◌-◌, ◌^◌, ◌<◌, ◌≡◌, refl, sym, ap, ◌∙◌, ◌≢◌, ◌⊎◌, false, none, arith, Bytes}
use rs_serve.User.{Users, missing, entry_uid, user_get_uid, user_get_entry}
use rs_serve.Request.{Request, Method, get, put, delete, if_match, if_none_match, is_directory}
use rs_serve.Response.{Response, res_ok, res_created}
use rs_serve.Auth.Database.{Database}
use rs_serve.Authorize.Grants.{TokenPermits, TokenPermits-granted}
use rs_serve.Posix.{Posix, IsPosix}
use rs_serve.DiskPath.{make_disk_path}
use rs_serve.Storage.{handled, Environment}
use rs_serve.Storage.Files.{IsUsable}
use rs_serve.Storage.Put.{exists, storage_handle_put}
use rs_serve.Storage.Put.Answers.{Answer, put-stores_or_refuses}
use rs_serve.Storage.Put.Replies.{HasType, put-replies}
use rs_serve.Storage.Read.{storage_handle_get}
use rs_serve.Storage.Delete.{storage_handle_delete}
use rs_serve.Storage.RoundTrip.{get-put, HasRoom}
use rs_serve.Dispatch.{
  add_cors_headers, uid_status, verify_user, is_options, handle_method, after_authorize,
  after_verify, fresh_response, dispatch_storage,
}
use rs_serve.Dispatch.Guard.{IsServed}

-- The uid is not one of the two that user_get_uid uses for its errors.
abbrev pub HasPlainUid : {users : Users} {user : Bytes} → IsServed users user → Type 0
HasPlainUid served = served.owner.uid < 2 ^ 32 - 2

verify_user-none :
    (users : Users) (req : Request) (served : IsServed users req.user)
    → HasPlainUid served
    → verify_user users req ≡ none
unfolding verify_user uid_status user_get_uid user_get_entry entry_uid
verify_user-none users req served plain =
    let allowed = served.not_system in rw served.known (ground (arith, plain, allowed))

module _ (P : Posix) (env : Environment P) (D : Database) (db : D.Db) where
  -- The request comes from a served user with a token that permits it.
  pub record IsPermitted (req : Request) : Type 0 where
    pub served : IsServed env.users req.user
    pub plain_uid : HasPlainUid served
    pub token : TokenPermits D db req

  -- It is handled by the handler of its method.
  pub dispatch-IsPermitted :
      (req : Request) (fs : P.Fs)
      → is_options req.method ≡ false
      → IsPermitted req
      → dispatch_storage P env D db req fs
        ≡ handle_method P env D db req.method req fs (add_cors_headers fresh_response)
  unfolding dispatch_storage after_verify after_authorize
  dispatch-IsPermitted req fs no_options p =
      rw
        (
          verify_user-none env.users req p.served p.plain_uid,
          no_options,
          TokenPermits-granted D db req p.token,
        )
        refl

  handle_method-put :
      (m : Method) (req : Request) (fs : P.Fs) (r : Response)
      → m ≡ put
      → handle_method P env D db m req fs r ≡ storage_handle_put P env req fs r
  unfolding handle_method
  handle_method-put m req fs r e = rw e refl

  handle_method-get :
      (m : Method) (req : Request) (fs : P.Fs) (r : Response)
      → m ≡ get
      → handle_method P env D db m req fs r ≡ storage_handle_get P env req fs r
  unfolding handle_method
  handle_method-get m req fs r e = rw e refl

  handle_method-delete :
      (m : Method) (req : Request) (fs : P.Fs) (r : Response)
      → m ≡ delete
      → handle_method P env D db m req fs r ≡ storage_handle_delete P env req fs r
  unfolding handle_method
  handle_method-delete m req fs r e = rw e refl

  pub dispatch-delete :
      (req : Request) (fs : P.Fs)
      → req.method ≡ delete
      → IsPermitted req
      → dispatch_storage P env D db req fs
        ≡ storage_handle_delete P env req fs (add_cors_headers fresh_response)
  dispatch-delete req fs e p =
      dispatch-IsPermitted req fs (ap is_options e) p ∙ handle_method-delete req.method req fs _ e

  pub dispatch-put :
      (req : Request) (fs : P.Fs)
      → req.method ≡ put
      → IsPermitted req
      → dispatch_storage P env D db req fs
        ≡ storage_handle_put P env req fs (add_cors_headers fresh_response)
  dispatch-put req fs e p =
      dispatch-IsPermitted req fs (ap is_options e) p ∙ handle_method-put req.method req fs _ e

  pub dispatch-get :
      (req : Request) (fs : P.Fs)
      → req.method ≡ get
      → IsPermitted req
      → dispatch_storage P env D db req fs
        ≡ storage_handle_get P env req fs (add_cors_headers fresh_response)
  dispatch-get req fs e p =
      dispatch-IsPermitted req fs (ap is_options e) p ∙ handle_method-get req.method req fs _ e

module _ (P : Posix) (env : Environment P) (law : IsPosix P) (D : Database) (db : D.Db) where
  known_user : (req : Request) → IsServed env.users req.user → env.users req.user ≢ missing
  known_user req served e = let e' = served.known in cc

  -- A PUT without If-Match from a served user with a token that permits it comes to a reply, whatever the
  -- calls of the system return within what POSIX promises of them: with 200 or 201 as much of the body is
  -- stored as the write took, and else the request is refused. Extended attributes are used, malloc leaves
  -- room for a byte behind a block, and the content type has a token before its first `;`.
  pub dispatch-put_replies :
      (req : Request) (fs : P.Fs)
      → req.method ≡ put
      → IsPermitted P env D db req
      → IsUsable P env
      → HasType P env law req
      → req.headers_in if_match ≡ none
      → let disk = (make_disk_path env.cfg.home_serve_root req.user req.path).disk_path in
        (fs' : P.Fs) × (r' : Response) × (dispatch_storage P env D db req fs ≡ handled fs' r')
        × Answer P env law req disk (exists (P.stat fs disk)) fs (handled fs' r')
  dispatch-put_replies req fs is_put p usable typed no_match =
      let r = add_cors_headers fresh_response in
      let (fs', r', run) =
        put-replies P env law req fs r usable typed no_match (known_user req p.served) in
      (
        fs',
        r',
        dispatch-put P env D db req fs is_put p ∙ run,
        rw run at (put-stores_or_refuses P env law req fs r),
      )

  -- After a permitted PUT that is answered with 200 or 201, where the disk had room for the body, a permitted
  -- GET of the same file without If-None-Match is answered with 200 and the body that was put, from the
  -- dispatch of the one request to the reply of the other, with extended attributes in use and a byte of
  -- room behind the blocks of malloc.
  pub dispatch-get_put :
      (req req' : Request) (fs fs1 : P.Fs) (r1 : Response)
      → req.method ≡ put
      → req'.method ≡ get
      → IsPermitted P env D db req
      → IsPermitted P env D db req'
      → IsUsable P env
      → HasRoom P env law req (make_disk_path env.cfg.home_serve_root req.user req.path).disk_path
      → req'.user ≡ req.user
      → req'.path ≡ req.path
      → is_directory req' ≡ false
      → req'.headers_in if_none_match ≡ none
      → dispatch_storage P env D db req fs ≡ handled fs1 r1
      → (r1.status ≡ res_ok) ⊎ (r1.status ≡ res_created)
      → (fs2 : P.Fs) × (r3 : Response) × (dispatch_storage P env D db req' fs1 ≡ handled fs2 r3)
        × (r3.status ≡ res_ok)
        × (r3.buffer_out ≡ req.body)
  unfolding add_cors_headers
  dispatch-get_put req req' fs fs1 r1 is_put is_get p p' usable room user path is_file no_match run
        ok =
      let r = add_cors_headers fresh_response in
      let stored : storage_handle_put P env req fs r ≡ handled fs1 r1 =
        sym (dispatch-put P env D db req fs is_put p) ∙ run in
      let (fs2, r3, replied, status, body) =
        get-put P env law req req' fs fs1 r r1 r usable room user path is_file no_match stored ok in
      (fs2, r3, dispatch-get P env D db req' fs1 is_get p' ∙ replied, status, body)
