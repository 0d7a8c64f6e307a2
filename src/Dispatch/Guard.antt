-- ===== src/Dispatch/Guard.antt =====
-- What dispatch_storage lets through to the storage handlers.
use rs_serve.Base.{
  ℕ, ◌≤◌, ◌≡◌, refl, inl, inr, ◌⊎◌, Bool, true, false, Option, none, some, arith, ◌==◌, Bytes,
  if◌then◌else◌, Bool-cases,
}
use rs_serve.Config.{min_uid}
use rs_serve.User.{
  Getpwnam, found, missing, failing, entry_of, Passwd, Users, entry_uid, user_get_uid,
  user_get_entry, uid_not_found, uid_error, uid_allowed,
}
use rs_serve.Request.{Request, is_read}
use rs_serve.Response.{res_unauth, res_notfound, res_serverr}
use rs_serve.Auth.Database.{Database}
use rs_serve.Authorize.{Decision, granted, denied, undefined, aborted, authorize_request}
use rs_serve.Authorize.Grants.{
  TokenPermits, SomeWrites, write-needs_scope, GarbageToken, undefined-GarbageToken,
}
use rs_serve.Posix.{Posix}
use rs_serve.Storage.{process_ends, Environment, reply}
use rs_serve.Dispatch.{
  add_cors_headers, uid_status, verify_user, is_options, handle_method, after_authorize,
  after_verify, fresh_response, dispatch_storage,
}

-- A user of the system, not one below RS_MIN_UID.
pub record IsServed (users : Users) (user : Bytes) : Type 0 where
  pub owner : Passwd
  pub known : users user ≡ found owner
  pub not_system : min_uid ≤ owner.uid

uid_status-IsServed :
    (users : Users) (user : Bytes) (g : Getpwnam)
    → users user ≡ g
    → uid_status (entry_uid (entry_of g)) ≡ none
    → IsServed users user
unfolding uid_status entry_uid
uid_status-IsServed users user (found p) e h = record {
  owner = p;
  known = e;
  not_system = ground arith;
}
uid_status-IsServed users user missing e h = cc
uid_status-IsServed users user failing e h = cc

uid_status-some :
    (uid status : ℕ)
    → uid_status uid ≡ some status
    → (status ≡ res_notfound) ⊎ (status ≡ res_serverr)
unfolding uid_status
uid_status-some uid status h = elim (Bool-cases (uid == uid_not_found)) [
  | inl e ↦ inl (let h' = rw e at h in cc)
  | inr e ↦ elim (Bool-cases (uid == uid_error)) [
    | inl f ↦ inr (let h' = rw (e, f) at h in cc)
    | inr f ↦ inl (from (uid_allowed uid) (rw (e, f) at h))
  ]
]
  where
    from :
        (b : Bool) → (if b then none else some res_notfound) ≡ some status → status ≡ res_notfound
    from true h = cc
    from false h = cc

module _ (P : Posix) (env : Environment P) (D : Database) (db : D.Db) where
  -- What becomes of a request that is neither a read nor OPTIONS.
  pub data Guarded (req : Request) (fs : P.Fs) : Type 0 where
    -- It is answered with the file system left as it was.
    refused :
        (status : ℕ)
        → (status ≡ res_unauth) ⊎ ((status ≡ res_notfound) ⊎ (status ≡ res_serverr))
        → dispatch_storage P env D db req fs ≡ reply fs (add_cors_headers fresh_response) status
        → Guarded req fs
    ended : dispatch_storage P env D db req fs ≡ process_ends → Guarded req fs
    -- The record that is stored for its token does not unpack, and what is left in memory decides.
    unreadable : IsServed env.users req.user → GarbageToken D db req → Guarded req fs
    -- It is handled, for a served user, with a stored token that may write the path.
    let_through :
        IsServed env.users req.user
        → (t : TokenPermits D db req) → SomeWrites t.auth.scopes req.path
        → dispatch_storage P env D db req fs
          ≡ handle_method P env D db req.method req fs (add_cors_headers fresh_response)
        → Guarded req fs

  after_authorize-Guarded :
      (req : Request) (fs : P.Fs) (d : Decision)
      → is_read req ≡ false
      → IsServed env.users req.user
      → authorize_request D db req ≡ d
      → dispatch_storage P env D db req fs
        ≡ after_authorize P env D db req fs (add_cors_headers fresh_response) d
      → Guarded req fs
  unfolding after_authorize
  after_authorize-Guarded req fs granted writes served e run =
      let (t, scope) = write-needs_scope D db req writes e in let_through served t scope run
  after_authorize-Guarded req fs denied writes served e run = refused res_unauth (inl refl) run
  after_authorize-Guarded req fs undefined writes served e run =
      unreadable served (undefined-GarbageToken D db req e)
  after_authorize-Guarded req fs aborted writes served e run = ended run

  pub dispatch-Guarded :
      (req : Request) (fs : P.Fs)
      → is_read req ≡ false
      → is_options req.method ≡ false
      → Guarded req fs
  unfolding dispatch_storage after_verify verify_user user_get_uid user_get_entry
  dispatch-Guarded req fs writes no_options =
      from (uid_status (entry_uid (entry_of (env.users req.user)))) refl
    where
      from :
          (o : Option ℕ)
          → uid_status (entry_uid (entry_of (env.users req.user))) ≡ o
          → Guarded req fs
      from (some status) e =
          refused status
            (inr (uid_status-some (entry_uid (entry_of (env.users req.user))) status e)) (rw e refl)
      from none e =
          after_authorize-Guarded req fs (authorize_request D db req) writes
            (uid_status-IsServed env.users req.user (env.users req.user) refl e) refl
            (rw (e, no_options) refl)
