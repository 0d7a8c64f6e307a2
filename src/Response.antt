-- ===== src/Response.antt =====
-- What a handler leaves in the request for the reply: status, headers and `buffer_out`.
use rs_serve.Base.{ℕ, List, [], ◌∷◌, ◌++◌, Bytes}

pub record Response : Type 0 where
  pub status : ℕ
  pub headers_out : List (Bytes × Bytes)
  pub buffer_out : Bytes

-- ADD_RESP_HEADER, ADD_RESP_HEADER_CP
abbrev pub add_header : Response → Bytes → Bytes → Response
add_header r key val = record r { headers_out = r.headers_out ++ ((key, val) ∷ []) }

abbrev pub set_status : Response → ℕ → Response
set_status r status = record r { status = status }

-- EVHTP_RES_*
abbrev pub res_ok : ℕ
res_ok = 200

abbrev pub res_created : ℕ
res_created = 201

abbrev pub res_nocontent : ℕ
res_nocontent = 204

abbrev pub res_notmod : ℕ
res_notmod = 304

abbrev pub res_badreq : ℕ
res_badreq = 400

abbrev pub res_unauth : ℕ
res_unauth = 401

abbrev pub res_notfound : ℕ
res_notfound = 404

abbrev pub res_methnallowed : ℕ
res_methnallowed = 405

abbrev pub res_precondition_failed : ℕ
res_precondition_failed = 412

abbrev pub res_serverr : ℕ
res_serverr = 500

abbrev pub res_notimpl : ℕ
res_notimpl = 501
