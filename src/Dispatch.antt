-- ===== src/Dispatch.antt =====
-- src/handler/dispatch.c: from a request to a reply.
pub mod Guard
pub mod Keeps
pub mod Permitted
pub mod Deleted
pub mod Spares
use rs_serve.Base.{
  ℕ, Bool, true, false, Option, none, some, List, [], ◌∷◌, ◌==◌, Bytes, codes, if◌then◌else◌,
}
use rs_serve.Config.{Config, allow_origin, allow_headers, allow_methods, expose_headers}
use rs_serve.User.{Users, user_get_uid, uid_not_found, uid_error, uid_allowed}
use rs_serve.Request.{Request, Method, get, head, put, delete, options, other}
use rs_serve.Response.{
  Response, add_header, set_status, res_nocontent, res_unauth, res_notfound, res_methnallowed,
  res_serverr,
}
use rs_serve.Auth.Database.{Database}
use rs_serve.Authorize.{
  Decision, granted, denied, undefined, aborted, authorize_request, is_public_read,
}
use rs_serve.Posix.{Posix}
use rs_serve.Storage.{
  Handled, handled, process_ends, Environment, reply, Garbage, matches_scope, matches_none, crashes,
}
use rs_serve.Storage.Read.{storage_handle_get, storage_handle_head}
use rs_serve.Storage.Put.{storage_handle_put}
use rs_serve.Storage.Delete.{storage_handle_delete}

unfoldable pub add_cors_headers : Response → Response
add_cors_headers r =
    add_header
      (add_header
        (add_header (add_header r (codes "Access-Control-Allow-Origin") allow_origin)
          (codes "Access-Control-Allow-Headers") allow_headers)
        (codes "Access-Control-Allow-Methods") allow_methods)
      (codes "Access-Control-Expose-Headers") expose_headers

-- verify_user: the status that it sets, or `none`.
unfoldable pub uid_status : ℕ → Option ℕ
uid_status uid =
    if uid == uid_not_found
    then some res_notfound
    else if uid == uid_error
    then some res_serverr
    else if uid_allowed uid
    then none
    else some res_notfound

unfoldable pub verify_user : Users → Request → Option ℕ
unfolding uid_status
verify_user users req = uid_status (user_get_uid users (some req.user))

abbrev pub is_options : Method → Bool
is_options options = true
is_options _ = false

-- `headers_out` and `buffer_out` are empty when the request comes in.
abbrev pub fresh_response : Response
fresh_response = record { status = 0; headers_out = []; buffer_out = [] }

module _ (P : Posix) (env : Environment P) (D : Database) (db : D.Db) where
  -- The switch on the method.
  unfoldable pub handle_method : Method → Request → P.Fs → Response → Handled P.Fs
  handle_method options req fs r = reply fs r res_nocontent
  handle_method get req fs r = storage_handle_get P env req fs r
  handle_method head req fs r = storage_handle_head P env req fs r
  handle_method put req fs r = storage_handle_put P env req fs r
  handle_method delete req fs r = storage_handle_delete P env req fs r
  handle_method other req fs r = reply fs r res_methnallowed

  -- After authorize_request, which has returned or ended the process. `undefined` is a garbage record:
  -- where its loop finds no scope, the public rule is tried.
  unfoldable pub after_authorize : Request → P.Fs → Response → Decision → Handled P.Fs
  unfolding handle_method
  after_authorize req fs r granted = handle_method req.method req fs r
  after_authorize req fs r denied = reply fs r res_unauth
  after_authorize req fs r undefined = elim env.garbage [
    | matches_scope ↦ handle_method req.method req fs r
    | matches_none ↦
        if is_public_read req then handle_method req.method req fs r else reply fs r res_unauth
    | crashes ↦ process_ends
  ]
  after_authorize req fs r aborted = process_ends

  unfoldable pub after_verify : Request → P.Fs → Response → Option ℕ → Handled P.Fs
  unfolding after_authorize
  after_verify req fs r (some status) = reply fs r status
  after_verify req fs r none =
      after_authorize req fs r
        (if is_options req.method then granted else authorize_request D db req)

  unfoldable pub dispatch_storage : Request → P.Fs → Handled P.Fs
  unfolding after_verify verify_user
  dispatch_storage req fs =
      after_verify req fs (add_cors_headers fresh_response) (verify_user env.users req)
