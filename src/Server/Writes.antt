-- ===== src/Server/Writes.antt =====
-- Who changes files in the runs of the event loop of src/process/main.c.
use rs_serve.Base.{ℕ, ◌≡◌, refl, ap, ◌⊎◌, inl, inr, List, [], ◌∷◌, ◌++◌}
use rs_serve.Request.{Request}
use rs_serve.Auth.Database.{Database}
use rs_serve.Posix.{Posix, SameFiles, IsPosix}
use rs_serve.Etag.Fresh.{SameFiles-refl, SameFiles-trans}
use rs_serve.Storage.{Environment, Garbage}
use rs_serve.Dispatch.Keeps.{LetThrough, dispatch-Keeps_or_LetThrough}
use rs_serve.Server.{handle_storage}
use rs_serve.Server.Runs.{
  Event, starts, State, Step, start_step, finish_step, signal_step, tokens_step, Runs, stays, steps,
}

module _ (P : Posix) (env : Environment P) (law : IsPosix P) (D : Database) where
  -- A request among the events that is permitted by a token stored at the moment when it comes in, or whose
  -- token then has a stored record that does not unpack: `state` is where the events before it lead.
  pub record GrantedIn (n : ℕ) (s : State P D) (events : List (Event D)) : Type 0 where
    pub before : List (Event D)
    pub request : Request
    pub after : List (Event D)
    pub among : events ≡ before ++ (starts request ∷ after)
    pub unfinished : ℕ
    pub state : State P D
    pub leads : Runs P env D n s before unfinished state
    pub granted : LetThrough P env law D state.db request

  any_garbage :
      (garbage : Garbage) (db : D.Db) (req : Request)
      → LetThrough P (record env { garbage = garbage }) law D db req
      → LetThrough P env law D db req
  any_garbage garbage db req (inl g) =
      inl (record { served = g.served; token = g.token; scope = g.scope })
  any_garbage garbage db req (inr t) = inr t

  first_event :
      (n n' : ℕ) (s s' : State P D) (e : Event D) (events : List (Event D))
      → Step P env D n s e n' s'
      → SameFiles P s.fs s'.fs ⊎ GrantedIn n s (e ∷ events)
  unfolding handle_storage
  first_event n _ s _ _ events (start_step _ _ garbage req fs r run) =
      elim (dispatch-Keeps_or_LetThrough P (record env { garbage = garbage }) law D s.db req s.fs fs
        r run) [
          | inl same ↦ inl same
          | inr granted ↦ inr (record {
            before = [];
            request = req;
            after = events;
            among = refl;
            unfinished = n;
            state = s;
            leads = stays n s;
            granted = any_garbage garbage s.db req granted;
          })
        ]
  first_event _ n s _ _ events (finish_step _ _) = inl (SameFiles-refl P s.fs)
  first_event n _ s _ _ events (signal_step _ _ signal e) = inl (SameFiles-refl P s.fs)
  first_event n _ s _ _ events (tokens_step _ _ db) = inl (SameFiles-refl P s.fs)

  later_event :
      (n n' : ℕ) (s s' : State P D) (e : Event D) (events : List (Event D))
      → Step P env D n s e n' s'
      → GrantedIn n' s' events
      → GrantedIn n s (e ∷ events)
  later_event n n' s s' e events step g = record {
    before = e ∷ g.before;
    request = g.request;
    after = g.after;
    among = ap (◌∷◌ e) g.among;
    unfinished = g.unfinished;
    state = g.state;
    leads = steps n n' g.unfinished s s' g.state e g.before step g.leads;
    granted = g.granted;
  }

  -- A run of the server, whatever requests, signals and changes of the stored tokens it is made of,
  -- leaves all files and directories as they were, or among its requests is one that came from a served
  -- user with a token that was stored at that moment, with a scope that covers the path and may write, or
  -- one with a token whose stored record did not unpack at that moment.
  pub Runs-GrantedIn :
      (n n' : ℕ) (s s' : State P D) (events : List (Event D))
      → Runs P env D n s events n' s'
      → SameFiles P s.fs s'.fs ⊎ GrantedIn n s events
  Runs-GrantedIn n _ s _ _ (stays _ _) = inl (SameFiles-refl P s.fs)
  Runs-GrantedIn n n'' s s'' _ (steps _ n' _ _ s' _ e events step run) =
      elim (first_event n n' s s' e events step) [
        | inr granted ↦ inr granted
        | inl same ↦ elim (Runs-GrantedIn n' n'' s' s'' events run) [
          | inr granted ↦ inr (later_event n n' s s' e events step granted)
          | inl later ↦ inl (SameFiles-trans P same later)
        ]
      ]
