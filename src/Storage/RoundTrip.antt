-- ===== src/Storage/RoundTrip.antt =====
-- A PUT and the GET after it: src/handler/storage.c.
use rs_serve.Base.{
  arith, ℕ, ◌≡◌, refl, inl, inr, ◌⊎◌, Bool, false, none, ◌++◌, Bytes, length, take-length,
}
use rs_serve.Request.{Request, if_none_match, is_directory}
use rs_serve.Response.{Response, res_ok, res_created}
use rs_serve.Posix.{Posix, IsPosix, returned, stored_part}
use rs_serve.DiskPath.{make_disk_path}
use rs_serve.Storage.{handled, Environment}
use rs_serve.Storage.Files.{HoldsFile, IsUsable}
use rs_serve.Storage.Put.{exists, storage_handle_put}
use rs_serve.Storage.Put.Answers.{
  Refused, bad_request, precondition_failed, server_error, Answer, put-stores_or_refuses,
  written_body,
}
use rs_serve.Storage.Read.{storage_handle_get}
use rs_serve.Storage.Read.File.{get-replies}

module _ (P : Posix) (env : Environment P) (law : IsPosix P) where
  Refused-not_ok :
      (req : Request) (path : Bytes) (existed : Bool) (before fs : P.Fs) (status : ℕ)
      → Refused P env law req path existed before fs status
      → ¬ ((status ≡ res_ok) ⊎ (status ≡ res_created))
  Refused-not_ok req path existed before fs status bad_request (inl e) = omega arith
  Refused-not_ok req path existed before fs status bad_request (inr e) = omega arith
  Refused-not_ok req path existed before fs status (precondition_failed same) (inl e) = omega arith
  Refused-not_ok req path existed before fs status (precondition_failed same) (inr e) = omega arith
  Refused-not_ok req path existed before fs status server_error (inl e) = omega arith
  Refused-not_ok req path existed before fs status server_error (inr e) = omega arith

  -- The disk has room for the body: a write of it under the path takes all of it.
  abbrev pub HasRoom : Request → Bytes → Type 0
  HasRoom req path = (fs : P.Fs) → (P.write fs path req.body).1 ≡ returned (length req.body)

  Answer-HoldsFile :
      (req : Request) (path : Bytes) (existed : Bool) (before fs : P.Fs) (r : Response)
      → (r.status ≡ res_ok) ⊎ (r.status ≡ res_created)
      → Answer P env law req path existed before (handled fs r)
      → HasRoom req path
      → HoldsFile P fs path req.body
  unfolding stored_part
  Answer-HoldsFile req path existed before fs r ok (inl stored) room =
      let whole : written_body P env law req path existed before stored.opened ≡ req.body =
        rw (room stored.opened) (take-length req.body) in
      rw whole at stored.body_stored
  Answer-HoldsFile req path existed before fs r ok (inr refused) room =
      absurd (Refused-not_ok req path existed before fs r.status refused ok)

  -- After a PUT that is answered with 200 or 201, where the disk had room for the body, a GET of the same
  -- path and user without If-None-Match is answered with 200 and the body that was put, with extended
  -- attributes in use and a byte of room behind the blocks of malloc.
  pub get-put :
      (req req' : Request) (fs fs1 : P.Fs) (r r1 r2 : Response)
      → IsUsable P env
      → HasRoom req (make_disk_path env.cfg.home_serve_root req.user req.path).disk_path
      → req'.user ≡ req.user
      → req'.path ≡ req.path
      → is_directory req' ≡ false
      → req'.headers_in if_none_match ≡ none
      → storage_handle_put P env req fs r ≡ handled fs1 r1
      → (r1.status ≡ res_ok) ⊎ (r1.status ≡ res_created)
      → (fs2 : P.Fs) × (r3 : Response) × (storage_handle_get P env req' fs1 r2 ≡ handled fs2 r3)
        × (r3.status ≡ res_ok)
        × (r3.buffer_out ≡ r2.buffer_out ++ req.body)
  get-put req req' fs fs1 r r1 r2 usable room user path is_file no_match put ok =
      let disk = (make_disk_path env.cfg.home_serve_root req.user req.path).disk_path in
      let holds : HoldsFile P fs1 disk req.body =
        Answer-HoldsFile req disk (exists (P.stat fs disk)) fs fs1 r1 ok
          (rw put at (put-stores_or_refuses P env law req fs r)) room in
      let holds' : HoldsFile P fs1
          (make_disk_path env.cfg.home_serve_root req'.user req'.path).disk_path req.body =
        rw (user, path) holds in
      let get = get-replies P env law req' fs1 r2 req.body usable holds' is_file no_match in
      (get.after, _, get.replied, refl, refl)
