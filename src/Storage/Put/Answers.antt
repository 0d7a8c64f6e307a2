-- ===== src/Storage/Put/Answers.antt =====
-- What storage_handle_put answers, and what it leaves in the file system.
use rs_serve.Base.{
  if-holds, ℕ, ◌≡◌, refl, sym, ap, ◌∙◌, inl, inr, ◌⊎◌, Bool, true, false, Option, none, some, Bytes,
  codes, if◌then◌else◌, Bool-cases, ◌&&◌,
}
use rs_serve.CString.{str_eq}
use rs_serve.CString.Laws.{str_eq_iff}
use rs_serve.User.{Passwd, Entry, entry, user_not_found, error, user_get_entry}
use rs_serve.Request.{Request, if_match, if_none_match, content_type, is_directory}
use rs_serve.Response.{
  Response, res_ok, res_created, res_badreq, res_precondition_failed, res_serverr,
}
use rs_serve.Posix.{Posix, Call, returned, failed, SameFiles, IsPosix, stored_part}
use rs_serve.DiskPath.{DiskPath, make_disk_path}
use rs_serve.ContentType.{content_type_to_xattr}
use rs_serve.ContentType.Files.{Keeps, content_type_to_xattr-Keeps}
use rs_serve.Etag.{Tagged, tagged, crashed, too_deep, get_etag}
use rs_serve.Etag.Fresh.{SameFiles-refl, KeepsFiles, get_etag-KeepsFiles}
use rs_serve.Storage.Files.{HoldsFile, HoldsFile-SameFiles, own-SameFiles, created-HoldsFile}
use rs_serve.Storage.{Handled, handled, process_ends, hangs, Environment, with_etag, or_ends}
use rs_serve.Storage.Read.{etag_of, header_is}
use rs_serve.Storage.Put.MakeDirs.{IsFailure, make_parents-IsFailure}
use rs_serve.Storage.Put.{
  exists, make_parents, answer_put, type_of_body, write_opened, write_file, put_with_parents,
  put_as, put_unless_match, put_if_match, storage_handle_put, stored_reply,
}

&&-false : (a b : Bool) → (a && b) ≡ false → (a ≡ false) ⊎ (b ≡ false)
&&-false true b h = inr h
&&-false false b h = inl refl

module _ (P : Posix) (env : Environment P) (law : IsPosix P) where
  module _ (req : Request) (disk_path : Bytes) (existed : Bool) (before : P.Fs) where
    -- There is no If-Match, or the file existed and had that ETag.
    pub data MatchHeld : Type 0 where
      no_if_match : req.headers_in if_match ≡ none → MatchHeld
      same_etag :
          (etag : Bytes) (fs' : P.Fs)
          → req.headers_in if_match ≡ some etag
          → existed ≡ true
          → etag_of P env before disk_path ≡ tagged fs' (some etag)
          → MatchHeld

    pub record Held : Type 0 where
      pub match_held : MatchHeld
      -- If-None-Match is not `*`, or the file did not exist.
      pub none_match_held :
          (header_is (req.headers_in if_none_match) (codes "*") ≡ false) ⊎ (existed ≡ false)

    -- As much of the body as the write has taken, all of it unless it was cut short or failed.
    abbrev pub written_body : P.Fs → Bytes
    written_body fs = stored_part (P.write fs disk_path req.body).1 req.body

    -- What was written is stored, and the preconditions held. `opened` is the file system at the write.
    pub record Stored (fs' : P.Fs) (status : ℕ) : Type 0 where
      pub opened : P.Fs
      pub body_stored : HoldsFile P fs' disk_path (written_body opened)
      pub created_or_ok : status ≡ (if existed then res_ok else res_created)
      pub held : Held

    -- The request is refused. When a precondition failed no file was changed.
    pub data Refused (fs' : P.Fs) : ℕ → Type 0 where
      bad_request : Refused fs' res_badreq
      precondition_failed : SameFiles P before fs' → Refused fs' res_precondition_failed
      server_error : Refused fs' res_serverr

    abbrev pub Answer : Handled P.Fs → Type 0
    Answer (handled fs' r) = Stored fs' r.status ⊎ Refused fs' r.status
    Answer process_ends = Unit
    Answer hangs = Unit
    Answer Handled.out_of_fuel = Unit

    with_etag-Answer :
        (fs : P.Fs) (path : Bytes) (null : P.Fs → Handled P.Fs) (next : P.Fs → Bytes → Handled P.Fs)
        → ((fs' : P.Fs) → SameFiles P fs fs' → Answer (null fs'))
        → ((fs' : P.Fs) (etag : Bytes)
            → SameFiles P fs fs'
            → etag_of P env fs path ≡ tagged fs' (some etag)
            → Answer (next fs' etag))
        → Answer (with_etag (etag_of P env fs path) null next)
    unfolding etag_of
    with_etag-Answer fs path null next on_null rest =
        from (get_etag P env.cfg env.process env.sha1 env.fuel fs path)
          (get_etag-KeepsFiles P env.cfg env.process env.sha1 law env.fuel fs path) refl
      where
        from :
            (t : Tagged P.Fs)
            → KeepsFiles P env.cfg env.process env.sha1 law fs t
            → etag_of P env fs path ≡ t
            → Answer (with_etag t null next)
        from (tagged fs' none) k e = on_null fs' k
        from (tagged fs' (some etag)) k e = rest fs' etag k e
        from crashed k e = tt
        from too_deep k e = tt

    answer_put-Answer :
        (r : Response) (mime : Bytes) (opened fs : P.Fs)
        → Held
        → HoldsFile P fs disk_path (written_body opened)
        → Answer (answer_put P env r disk_path existed mime fs)
    unfolding answer_put
    answer_put-Answer r mime opened fs held read =
        elim (Bool-cases (exists (P.stat fs disk_path))) [
          | inl e ↦ rw e (
              with_etag-Answer fs disk_path _ _
                (λ fs' same. null_header fs' env.null_header (stores fs' same))
                (λ fs' etag same e'. inl (stores fs' same)))
          | inr e ↦ rw e (inr server_error)
        ]
      where
        stores :
            (fs' : P.Fs) → SameFiles P fs fs' → Stored fs' (if existed then res_ok else res_created)
        stores fs' same = record {
          opened = opened;
          body_stored = HoldsFile-SameFiles P fs fs' disk_path (written_body opened) same read;
          created_or_ok = refl;
          held = held;
        }

        null_header :
            (fs' : P.Fs) (o : Option Bytes)
            → Stored fs' (if existed then res_ok else res_created)
            → Answer (or_ends o (λ null. stored_reply P env r existed mime fs' null))
        null_header fs' none s = tt
        null_header fs' (some null) s = inl s

    or_ends-Answer :
        (fs : P.Fs) (o : Option P.Fs) (next : P.Fs → Handled P.Fs)
        → Keeps P env.cfg env.process law fs o
        → ((fs' : P.Fs) → SameFiles P fs fs' → Answer (next fs'))
        → Answer (or_ends o next)
    or_ends-Answer fs none next k rest = tt
    or_ends-Answer fs (some fs') next k rest = rest fs' k

    write_opened-Answer :
        (r : Response) (owner : Passwd) (fs : P.Fs) (c : Call P.Fs)
        → Held
        → P.create fs disk_path ≡ c
        → Answer (write_opened P env req r disk_path existed owner fs c)
    unfolding write_opened
    write_opened-Answer r owner fs (failed e) held h = inr server_error
    write_opened-Answer r owner fs (returned opened) held h =
        let owned = if existed then opened else P.chown opened disk_path owner.uid owner.gid in
        let mime = type_of_body P env (req.headers_in content_type) in
        let written = (P.write owned disk_path req.body).0 in
        or_ends-Answer written (content_type_to_xattr P env.cfg env.process written disk_path mime)
          _ (content_type_to_xattr-Keeps P env.cfg env.process law written disk_path mime)
          (λ fs' same. answer_put-Answer r mime owned fs' held (
            HoldsFile-SameFiles P written fs' disk_path (written_body owned) same (
              created-HoldsFile P law fs opened owned disk_path req.body h
                (own-SameFiles P law existed opened disk_path owner.uid owner.gid))))

    put_with_parents-Answer :
        (r : Response) (owner : Passwd) (fs : P.Fs) (o : Option ℕ)
        → Held
        → IsFailure P env o
        → Answer (put_with_parents P env req r disk_path existed owner fs o)
    unfolding put_with_parents write_file
    put_with_parents-Answer r owner fs none held f =
        write_opened-Answer r owner fs (P.create fs disk_path) held refl
    put_with_parents-Answer r owner fs (some status) held (inl e) = rw e (inr bad_request)
    put_with_parents-Answer r owner fs (some status) held (inr e) = rw e (inr server_error)

  module _ (req : Request) (disk : DiskPath) (existed : Bool) (before : P.Fs) where
    put_as-Answer :
        (r : Response) (fs : P.Fs) (who : Entry)
        → Held req disk.disk_path existed before
        → Answer req disk.disk_path existed before (put_as P env req r disk existed fs who)
    unfolding put_as
    put_as-Answer r fs (entry owner) held =
        let parents = make_parents P env owner disk fs in
        put_with_parents-Answer req disk.disk_path existed before r owner parents.fs parents.failure
          held (make_parents-IsFailure P env owner disk fs)
    put_as-Answer r fs user_not_found held = tt
    put_as-Answer r fs error held = inr server_error

    put_unless_match-Answer :
        (r : Response) (fs : P.Fs)
        → MatchHeld req disk.disk_path existed before
        → SameFiles P before fs
        → Answer req disk.disk_path existed before (put_unless_match P env req r disk existed fs)
    unfolding put_unless_match
    put_unless_match-Answer r fs m same =
        if-holds (Answer req disk.disk_path existed before)
          (header_is (req.headers_in if_none_match) (codes "*") && existed) _ _
          (λ fails. inr (precondition_failed same))
          (λ holds. put_as-Answer r fs (user_get_entry env.users (some req.user)) (record {
            match_held = m;
            none_match_held =
                &&-false (header_is (req.headers_in if_none_match) (codes "*")) existed holds;
          }))

    put_if_match-Answer :
        (r : Response) (o : Option Bytes)
        → req.headers_in if_match ≡ o
        → Answer req disk.disk_path existed before (put_if_match P env req r disk existed before o)
    unfolding put_if_match
    put_if_match-Answer r none e =
        put_unless_match-Answer r before (no_if_match e) (SameFiles-refl P before)
    put_if_match-Answer r (some val) e =
        if-holds (Answer req disk.disk_path existed before) existed _ _
          (λ found.
            with_etag-Answer req disk.disk_path existed before before disk.disk_path _ _
              (λ fs' same. tt)
              (λ fs' etag same is_etag.
                if-holds (Answer req disk.disk_path existed before) (str_eq etag val) _ _
                  (λ equal.
                    put_unless_match-Answer r fs'
                      (same_etag etag fs' (e ∙ ap some (sym ((str_eq_iff etag val).0 equal))) found
                        is_etag)
                      same)
                  (λ differs. inr (precondition_failed same))))
          (λ missing. inr (precondition_failed (SameFiles-refl P before)))

  -- A PUT that replies has stored under the path as much of the body as the write took, which is all of it
  -- unless the write was cut short or failed, with its preconditions held and the status 200 of a file that
  -- existed or 201 of a new one, whatever the write reported; or it has refused, with the status 400,
  -- 500 or, then with every file unchanged, 412.
  pub put-stores_or_refuses :
      (req : Request) (fs : P.Fs) (r : Response)
      → let disk = (make_disk_path env.cfg.home_serve_root req.user req.path).disk_path in
        Answer req disk (exists (P.stat fs disk)) fs (storage_handle_put P env req fs r)
  unfolding storage_handle_put
  put-stores_or_refuses req fs r =
      let disk = make_disk_path env.cfg.home_serve_root req.user req.path in
      let existed = exists (P.stat fs disk.disk_path) in
      if-holds (Answer req disk.disk_path existed fs) (is_directory req) _ _
        (λ directory. inr bad_request)
        (λ is_file. put_if_match-Answer req disk existed fs r (req.headers_in if_match) refl)
