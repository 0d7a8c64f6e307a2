-- ===== src/Server/Runs.antt =====
-- Runs of the event loop of src/process/main.c.
use rs_serve.Base.{ℕ, suc, ◌%◌, ◌^◌, ◌≡◌, Option, none, List, [], ◌∷◌, arith}
use rs_serve.Request.{Request}
use rs_serve.Response.{Response}
use rs_serve.Auth.Database.{Database}
use rs_serve.Posix.{Posix}
use rs_serve.Storage.{handled, Environment, Garbage}
use rs_serve.Server.{Signal, handle_signal, finish_request, handle_storage}

-- What happens to the server. `tokens_set` is a change of the database by another process, a tool or the
-- authorization web server.
pub data Event (D : Database) : Type 0 where
  starts : Request → Event D
  finishes : Event D
  signalled : Option Signal → Event D
  tokens_set : D.Db → Event D

-- The variables of the process, and what it shares with others.
pub record State (P : Posix) (D : Database) : Type 0 where
  pub request_count : ℕ
  pub fs : P.Fs
  pub db : D.Db

module _ (P : Posix) (env : Environment P) (D : Database) where
  -- One event after which the server still runs. `unfinished` counts the requests to the storage that
  -- have not been finished; libevhtp calls finish_request once for each.
  pub data Step : (unfinished : ℕ) → State P D → Event D → ℕ → State P D → Type 0 where
    start_step :
        (n : ℕ) (s : State P D) (garbage : Garbage) (req : Request) (fs : P.Fs) (r : Response)
        → (handle_storage P env D s.db s.request_count garbage req s.fs).1 ≡ handled fs r
        → Step n s (starts req) (suc n) (record {
          request_count = (handle_storage P env D s.db s.request_count garbage req s.fs).0;
          fs = fs;
          db = s.db;
        })
    finish_step :
        (n : ℕ) (s : State P D)
        → Step
            (suc n)
            s
            finishes
            n
            (record { request_count = finish_request s.request_count; fs = s.fs; db = s.db })
    signal_step :
        (n : ℕ) (s : State P D) (signal : Option Signal)
        → handle_signal signal ≡ none
        → Step n s (signalled signal) n s
    tokens_step :
        (n : ℕ) (s : State P D) (db : D.Db)
        → Step n s
            (tokens_set db)
            n
            (record { request_count = s.request_count; fs = s.fs; db = db })

  pub data Runs : ℕ → State P D → List (Event D) → ℕ → State P D → Type 0 where
    stays : (n : ℕ) (s : State P D) → Runs n s [] n s
    steps :
        (n n' n'' : ℕ) (s s' s'' : State P D) (e : Event D) (events : List (Event D))
        → Step n s e n' s'
        → Runs n' s' events n'' s''
        → Runs n s (e ∷ events) n'' s''

  -- request_count is the number of unfinished requests, as far as an unsigned int can count.
  abbrev pub Counts : ℕ → State P D → Type 0
  Counts n s = s.request_count ≡ n % 2 ^ 32

  Step-Counts :
      (n n' : ℕ) (s s' : State P D) (e : Event D) → Step n s e n' s' → Counts n s → Counts n' s'
  unfolding handle_storage finish_request
  Step-Counts n _ s _ _ (start_step _ _ garbage req fs r run) h = omega (arith, h)
  Step-Counts _ n s _ _ (finish_step _ _) h = omega (arith, h)
  Step-Counts n _ s _ _ (signal_step _ _ signal e) h = h
  Step-Counts n _ s _ _ (tokens_step _ _ db) h = h

  -- In every run of the server request_count is the number of requests to the storage that have started
  -- and not finished, modulo 2 ^ 32, if it is so at the start.
  pub Runs-Counts :
      (n n' : ℕ) (s s' : State P D) (events : List (Event D))
      → Runs n s events n' s'
      → Counts n s
      → Counts n' s'
  Runs-Counts n _ s _ _ (stays _ _) h = h
  Runs-Counts n n'' s s'' _ (steps _ n' _ _ s' _ e events step run) h =
      Runs-Counts n' n'' s' s'' events run (Step-Counts n n' s s' e step h)
