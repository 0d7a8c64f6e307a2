-- ===== src/Storage/Read/Listing.antt =====
-- The body of a directory: serve_directory of src/handler/storage.c.
use rs_serve.Base.{
  ◌≡◌, ◌≢◌, refl, ◌∙◌, inl, inr, Bool, true, false, none, some, List, [], ◌∷◌, ◌++◌, Bytes, arith,
  if◌then◌else◌, ◌⊎◌, if-holds,
}
use rs_serve.Request.{Request}
use rs_serve.Response.{Response, res_ok, res_serverr}
use rs_serve.Posix.{Posix, returned, SameFiles, IsPosix}
use rs_serve.Etag.{Tagged, tagged, crashed, too_deep, is_dot}
use rs_serve.Etag.Fresh.{SameFiles-refl, SameFiles-trans, KeepsFiles, get_etag-KeepsFiles}
use rs_serve.Json.{Json, new_json, json_start_object, json_end_object, json_write_key_val}
use rs_serve.Json.Document.{
  text, object, Members, end, member, print, emit, emit_members, depth, depth_members, simple_text,
  simple_object, AreSimple, simple_end, simple_member,
}
use rs_serve.Json.Writer.{emit-Emits}
use rs_serve.Storage.{Handled, handled, process_ends, hangs, out_of_fuel, Environment, with_etag}
use rs_serve.Storage.Read.{etag_of, finish_directory, stat_is_dir, list_entries, serve_directory}

-- The key of an entry; a directory has a slash behind its name.
abbrev pub entry_key : Bytes → Bool → Bytes
entry_key name dir = if dir then name ++ (b'/' ∷ []) else name

module _ (P : Posix) (env : Environment P) (law : IsPosix P) (fs0 : P.Fs) (path : Bytes) where
  -- The members that stand for the entries of a directory, in their order: all entries but `.` and `..`,
  -- each with the ETag that get_etag has for it. The flag is what the last stat() left in the buffer.
  pub data Lists : Bool → List Bytes → Members → Type 0 where
    no_entry : (dir : Bool) → Lists dir [] end
    skipped :
        (dir : Bool) (name : Bytes) (names : List Bytes) (ms : Members)
        → is_dot name ≡ true
        → Lists dir names ms
        → Lists dir (name ∷ names) ms
    listed :
        (dir : Bool) (name : Bytes) (names : List Bytes) (ms : Members) (etag : Bytes)
        (fs1 fs2 : P.Fs)
        → is_dot name ≡ false
        → SameFiles P fs0 fs1
        → etag_of P env fs1 (path ++ name) ≡ tagged fs2 (some etag)
        → Lists (stat_is_dir P env (P.stat fs0 (path ++ name)) dir) names ms
        → Lists dir (name ∷ names) (
            member
              (entry_key name (stat_is_dir P env (P.stat fs0 (path ++ name)) dir))
              (text etag)
              ms)

  -- The members are texts.
  abbrev AreTexts : Members → Type 0
  AreTexts ms = AreSimple ms × (depth_members ms ≡ 0)

  Lists-AreTexts :
      (dir : Bool) (names : List Bytes) (ms : Members) → Lists dir names ms → AreTexts ms
  unfolding depth
  Lists-AreTexts _ _ _ (no_entry dir) = (simple_end, refl)
  Lists-AreTexts _ _ _ (skipped dir name names ms e l) = Lists-AreTexts dir names ms l
  Lists-AreTexts _ _ _ (listed dir name names ms etag fs1 fs2 e same tag l) =
      let (simple, flat) = Lists-AreTexts _ names ms l in
      (simple_member _ (text etag) ms (simple_text etag) simple, omega (arith, flat))

  -- The body of a directory, from the writer `json` on.
  pub record Written (dir : Bool) (names : List Bytes) (json : Json) (r : Response) : Type 0 where
    pub members : Members
    pub lists : Lists dir names members
    pub body : r.buffer_out ≡ (json_end_object (emit_members members json)).out

  -- A reply is no 200, or it has the body.
  abbrev Replied : Bool → List Bytes → Json → Handled P.Fs → Type 0
  Replied dir names json (handled fs r) = (r.status ≢ res_ok) ⊎ Written dir names json r
  Replied dir names json process_ends = Unit
  Replied dir names json hangs = Unit
  Replied dir names json out_of_fuel = Unit

  with_etag-holds :
      (Q : Handled P.Fs → Type 0) (fs : P.Fs) (p : Bytes) (null : P.Fs → Handled P.Fs)
      (next : P.Fs → Bytes → Handled P.Fs)
      → SameFiles P fs0 fs
      → Q process_ends
      → Q out_of_fuel
      → ((fs' : P.Fs) → Q (null fs'))
      → ((fs' : P.Fs) (etag : Bytes)
          → SameFiles P fs0 fs'
          → etag_of P env fs p ≡ tagged fs' (some etag)
          → Q (next fs' etag))
      → Q (with_etag (etag_of P env fs p) null next)
  unfolding etag_of
  with_etag-holds Q fs p null next same on_end on_fuel on_null on_etag =
      from _ (get_etag-KeepsFiles P env.cfg env.process env.sha1 law env.fuel fs p) refl
    where
      from :
          (t : Tagged P.Fs)
          → KeepsFiles P env.cfg env.process env.sha1 law fs t
          → etag_of P env fs p ≡ t
          → Q (with_etag t null next)
      from (tagged fs' none) k e = on_null fs'
      from (tagged fs' (some etag)) k e = on_etag fs' etag (SameFiles-trans P same k) e
      from crashed k e = on_end
      from too_deep k e = on_fuel

  finish_directory-Replied :
      (r : Response) (dir : Bool) (fs : P.Fs) (json : Json)
      → SameFiles P fs0 fs
      → Replied dir [] json (finish_directory P env r path fs json)
  unfolding finish_directory emit
  finish_directory-Replied r dir fs json same =
      with_etag-holds (Replied dir [] json) fs path _ _ same tt tt
        (λ fs'. inl (λ (e : res_serverr ≡ res_ok). omega arith))
        (λ fs' etag s e. inr (record { members = end; lists = no_entry dir; body = refl }))

  list_entries-Replied :
      (r : Response) (names : List Bytes) (dir : Bool) (fs : P.Fs) (json : Json)
      → SameFiles P fs0 fs
      → Replied dir names json (list_entries P env r path names dir fs json)
  unfolding list_entries emit json_write_key_val
  list_entries-Replied r [] dir fs json same = finish_directory-Replied r dir fs json same
  list_entries-Replied r (name ∷ names) dir fs json same =
      if-holds (Replied dir (name ∷ names) json) (is_dot name)
        (list_entries P env r path names dir fs json) _
        (λ dot. after_skip dot _ (list_entries-Replied r names dir fs json same))
        (λ entry.
          with_etag-holds (Replied dir (name ∷ names) json) fs (path ++ name) (λ fs'. process_ends)
            _ same tt tt (λ fs'. tt)
            (λ fs' etag s e.
              after_entry entry fs' etag e _ (list_entries-Replied r names _ fs' _ s)))
    where
      after_skip :
          is_dot name ≡ true
          → (h : Handled P.Fs) → Replied dir names json h
          → Replied dir (name ∷ names) json h
      after_skip dot (handled fs' r') (inl other) = inl other
      after_skip dot (handled fs' r') (inr w) = inr (record {
        members = w.members;
        lists = skipped dir name names w.members dot w.lists;
        body = w.body;
      })
      after_skip dot process_ends w = tt
      after_skip dot hangs w = tt
      after_skip dot out_of_fuel w = tt

      after_entry :
          is_dot name ≡ false
          → (fs' : P.Fs) (etag : Bytes) → etag_of P env fs (path ++ name) ≡ tagged fs' (some etag)
          → (h : Handled P.Fs)
          → Replied
              (stat_is_dir P env (P.stat fs (path ++ name)) dir)
              names
              (json_write_key_val json
                (entry_key name (stat_is_dir P env (P.stat fs (path ++ name)) dir))
                etag)
              h
          → Replied dir (name ∷ names) json h
      after_entry entry fs' etag e (handled fs2 r') (inl other) = inl other
      after_entry entry fs' etag e (handled fs2 r') (inr w) = inr (record {
        members =
            member (entry_key name (stat_is_dir P env (P.stat fs0 (path ++ name)) dir)) (text etag)
              w.members;
        lists =
            listed dir name names w.members etag fs fs' entry same e
              (rw (same.same_stat (path ++ name)) at w.lists);
        body = rw (same.same_stat (path ++ name)) at w.body;
      })
      after_entry entry fs' etag e process_ends w = tt
      after_entry entry fs' etag e hangs w = tt
      after_entry entry fs' etag e out_of_fuel w = tt

module _ (P : Posix) (env : Environment P) (law : IsPosix P) where
  pub serve_directory-Lists :
      (fs fs' : P.Fs) (r r' : Response) (path : Bytes) (names : List Bytes)
      → P.entries fs path ≡ returned names
      → serve_directory P env fs r path ≡ handled fs' r'
      → r'.status ≡ res_ok
      → (ms : Members) × Lists P env law fs path env.junk names ms
        × (r'.buffer_out ≡ r.buffer_out ++ print (object ms))
  unfolding serve_directory emit
  serve_directory-Lists fs fs' r r' path names entries run ok =
      let json = new_json env.cells r.buffer_out in
      let replied =
        list_entries-Replied P env law fs path r names env.junk fs (json_start_object json)
          (SameFiles-refl P fs) in
      let run' : list_entries P env r path names env.junk fs (json_start_object json)
          ≡ handled fs' r' =
        rw (serve_directory, entries) at run in
      from (rw run' at replied)
    where
      from :
          (r'.status ≢ res_ok)
            ⊎ Written P env law fs path env.junk names
                (json_start_object (new_json env.cells r.buffer_out))
                r'
          → (ms : Members) × Lists P env law fs path env.junk names ms
            × (r'.buffer_out ≡ r.buffer_out ++ print (object ms))
      from (inl other) = absurd (other ok)
      from (inr w) =
          let (simple, flat) = Lists-AreTexts P env law fs path env.junk names w.members w.lists in
          (
            w.members,
            w.lists,
            w.body
                ∙ (emit-Emits (object w.members) (new_json env.cells r.buffer_out)
                    (simple_object w.members simple)
                    (unfold new_json depth in omega (arith, flat))).written
                ∙ (unfold new_json in refl),
          )
