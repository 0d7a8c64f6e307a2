-- ===== src/Request.antt =====
-- A request as the handlers see it: the fields of `evhtp_request_t` that they read, as libevhtp
-- fills them in, with the accessors of src/rs-serve.h.
use rs_serve.Base.{Bool, true, false, Option, none, some, Bytes, ◌||◌}

-- htp_method. `other` stands for the methods that no handler names.
pub data Method : Type 0 where
  get head put delete options other : Method

-- The request headers that the handlers look up.
pub data Header : Type 0 where
  authorization if_match if_none_match content_type : Header

pub record Request : Type 0 where
  pub method : Method
  -- REQUEST_GET_USER, REQUEST_GET_PATH: `uri->path->match_start` and `match_end`
  pub user : Bytes
  pub path : Bytes
  -- `uri->path->file`, NULL for a directory
  pub file : Option Bytes
  -- what `evhtp_headers_find_header(request->headers_in, …)` returns
  pub headers_in : Header → Option Bytes
  -- `buffer_in`
  pub body : Bytes

-- `request->uri->path->file == NULL`
abbrev pub is_directory : Request → Bool
is_directory r = elim r.file [ none ↦ true | some f ↦ false ]

abbrev pub is_get : Method → Bool
is_get get = true
is_get _ = false

abbrev pub is_head : Method → Bool
is_head head = true
is_head _ = false

-- IS_READ of src/handler/auth.c
abbrev pub is_read : Request → Bool
is_read r = is_get r.method || is_head r.method
