-- ===== src/Dispatch/Keeps.antt =====
-- Which requests change the files, by dispatch_storage of src/handler/dispatch.c.
use rs_serve.Base.{
  ℕ, ◌≡◌, refl, sym, ◌∙◌, ◌⊎◌, inl, inr, true, false, Option, none, some, if◌then◌else◌, ◌||◌,
  if-both,
}
use rs_serve.Request.{
  Request, Method, get, head, put, delete, options, other, is_read, is_get, is_head,
}
use rs_serve.Response.{Response, res_unauth}
use rs_serve.Auth.Database.{Database}
use rs_serve.Authorize.{
  Decision, granted, denied, undefined, aborted, authorize_request, is_public_read,
}
use rs_serve.Authorize.Grants.{TokenPermits, SomeWrites, GarbageToken}
use rs_serve.Posix.{Posix, SameFiles, IsPosix}
use rs_serve.Etag.Fresh.{SameFiles-refl}
use rs_serve.Storage.{
  handled, Environment, Garbage, matches_scope, matches_none, crashes, process_ends, reply,
}
use rs_serve.Storage.Read.Keeps.{Keeps, read-Keeps}
use rs_serve.Dispatch.{
  add_cors_headers, verify_user, is_options, handle_method, after_authorize, after_verify,
  fresh_response, dispatch_storage,
}
use rs_serve.Dispatch.Guard.{
  IsServed, Guarded, refused, ended, let_through, dispatch-Guarded, unreadable,
}

module _ (P : Posix) (env : Environment P) (law : IsPosix P) (D : Database) (db : D.Db) where
  -- GET, HEAD and OPTIONS.
  handle_method-Keeps :
      (req : Request) (m : Method) (fs : P.Fs) (r : Response)
      → (is_get m ≡ true) ⊎ ((is_head m ≡ true) ⊎ (is_options m ≡ true))
      → Keeps P fs (handle_method P env D db m req fs r)
  unfolding handle_method
  handle_method-Keeps req get fs r h = (read-Keeps P env law req fs r).0
  handle_method-Keeps req head fs r h = (read-Keeps P env law req fs r).1
  handle_method-Keeps req options fs r h = SameFiles-refl P fs
  handle_method-Keeps req other fs r h = SameFiles-refl P fs
  handle_method-Keeps req put fs r (inl h) = cc
  handle_method-Keeps req put fs r (inr (inl h)) = cc
  handle_method-Keeps req put fs r (inr (inr h)) = cc
  handle_method-Keeps req delete fs r (inl h) = cc
  handle_method-Keeps req delete fs r (inr (inl h)) = cc
  handle_method-Keeps req delete fs r (inr (inr h)) = cc

  dispatch-Keeps :
      (req : Request) (fs : P.Fs)
      → (is_get req.method ≡ true) ⊎ ((is_head req.method ≡ true) ⊎ (is_options req.method ≡ true))
      → Keeps P fs (dispatch_storage P env D db req fs)
  unfolding dispatch_storage after_verify after_authorize
  dispatch-Keeps req fs h = verified (verify_user env.users req)
    where
      from_garbage :
          (g : Garbage)
          → Keeps P fs (elim g [
            | matches_scope ↦
                handle_method P env D db req.method req fs (add_cors_headers fresh_response)
            | matches_none ↦
                if is_public_read req
                then handle_method P env D db req.method req fs (add_cors_headers fresh_response)
                else reply fs (add_cors_headers fresh_response) res_unauth
            | crashes ↦ process_ends
          ])
      from_garbage matches_scope =
          handle_method-Keeps req req.method fs (add_cors_headers fresh_response) h
      from_garbage matches_none =
          if-both (Keeps P fs) (is_public_read req) _ _
            (handle_method-Keeps req req.method fs (add_cors_headers fresh_response) h)
            (SameFiles-refl P fs)
      from_garbage crashes = tt

      decided :
          (d : Decision)
          → Keeps P fs (after_authorize P env D db req fs (add_cors_headers fresh_response) d)
      decided granted = handle_method-Keeps req req.method fs (add_cors_headers fresh_response) h
      decided denied = SameFiles-refl P fs
      decided undefined = from_garbage env.garbage
      decided aborted = tt

      verified :
          (o : Option ℕ)
          → Keeps P fs (after_verify P env D db req fs (add_cors_headers fresh_response) o)
      verified (some status) = SameFiles-refl P fs
      verified none =
          decided (if is_options req.method then granted else authorize_request D db req)

  -- A request that is handled for a served user, with a stored token that may write its path.
  pub record WriteGranted (req : Request) : Type 0 where
    pub served : IsServed env.users req.user
    pub token : TokenPermits D db req
    pub scope : SomeWrites token.auth.scopes req.path

  -- Or it carries a token whose stored record does not unpack, and is handled if what is left in memory
  -- lets it through.
  abbrev pub LetThrough : Request → Type 0
  LetThrough req = WriteGranted req ⊎ GarbageToken D db req

  method-cases :
      (req : Request)
      → ((is_get req.method ≡ true)
          ⊎ ((is_head req.method ≡ true) ⊎ (is_options req.method ≡ true)))
        ⊎ ((is_read req ≡ false) × (is_options req.method ≡ false))
  method-cases req = from req.method
    where
      from :
          (m : Method)
          → ((is_get m ≡ true) ⊎ ((is_head m ≡ true) ⊎ (is_options m ≡ true)))
            ⊎ (((is_get m || is_head m) ≡ false) × (is_options m ≡ false))
      from get = inl (inl refl)
      from head = inl (inr (inl refl))
      from options = inl (inr (inr refl))
      from put = inr (refl, refl)
      from delete = inr (refl, refl)
      from other = inr (refl, refl)

  -- A request that comes to a reply leaves the files as they were, or it is handled for a served user
  -- with a stored token that may write its path, or carries a token whose stored record does not unpack.
  pub dispatch-Keeps_or_LetThrough :
      (req : Request) (fs fs' : P.Fs) (r : Response)
      → dispatch_storage P env D db req fs ≡ handled fs' r
      → SameFiles P fs fs' ⊎ LetThrough req
  dispatch-Keeps_or_LetThrough req fs fs' r run = elim (method-cases req) [
    | inl safe ↦ inl (rw run at (dispatch-Keeps req fs safe))
    | inr (writes, no_options) ↦ from (dispatch-Guarded P env D db req fs writes no_options)
  ]
    where
      from : Guarded P env D db req fs → SameFiles P fs fs' ⊎ LetThrough req
      from (refused status which e) =
          let both = sym e ∙ run in let same : fs' ≡ fs = cc in inl (rw same (SameFiles-refl P fs))
      from (ended e) = let both = sym run ∙ e in cc
      from (let_through served t scope e) =
          inr (inl (record { served = served; token = t; scope = scope }))
      from (unreadable served t) = inr (inr t)
