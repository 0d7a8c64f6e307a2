-- ===== src/Server/Spares.antt =====
-- The files that no request names, in the runs of the event loop of src/process/main.c.
use rs_serve.Base.{ℕ, List, [], ◌∷◌, Bytes}
use rs_serve.Auth.Database.{Database}
use rs_serve.Posix.{Posix, IsPosix}
use rs_serve.Storage.{Environment}
use rs_serve.Storage.Files.{HoldsFile}
use rs_serve.Storage.Others.{IsForDirectories}
use rs_serve.Dispatch.Spares.{Avoids, dispatch-Spares}
use rs_serve.Server.{handle_storage}
use rs_serve.Server.Runs.{
  Event, starts, finishes, signalled, tokens_set, State, Step, start_step, finish_step, signal_step,
  tokens_step, Runs, stays, steps,
}

module _ (P : Posix) (env : Environment P) (law : IsPosix P) (dirs : IsForDirectories P)
    (D : Database) where
  abbrev pub Avoided : Event D → Bytes → Type 0
  Avoided (starts req) file = Avoids P env req file
  Avoided finishes file = Unit
  Avoided (signalled signal) file = Unit
  Avoided (tokens_set db) file = Unit

  -- No event puts or deletes the file.
  abbrev pub AllAvoid : List (Event D) → Bytes → Type 0
  AllAvoid [] file = Unit
  AllAvoid (e ∷ events) file = Avoided e file × AllAvoid events file

  Step-spares :
      (n n' : ℕ) (s s' : State P D) (e : Event D) (file content : Bytes)
      → Step P env D n s e n' s'
      → Avoided e file
      → HoldsFile P s.fs file content
      → HoldsFile P s'.fs file content
  unfolding handle_storage
  Step-spares n _ s _ _ file content (start_step _ _ garbage req fs r run) avoids has = rw run at (
      dispatch-Spares P (record env { garbage = garbage }) law dirs D s.db req file content s.fs
        avoids has)
  Step-spares _ n s _ _ file content (finish_step _ _) avoids has = has
  Step-spares n _ s _ _ file content (signal_step _ _ signal e) avoids has = has
  Step-spares n _ s _ _ file content (tokens_step _ _ db) avoids has = has

  -- A readable regular file has the same content after a run of the server, whatever requests, signals
  -- and changes of the stored tokens the run is made of, if the disk path of every PUT and DELETE in it
  -- names another file, also where these fail halfway, create the parents of their file or remove
  -- empty ones.
  pub Runs-spares :
      (n n' : ℕ) (s s' : State P D) (events : List (Event D)) (file content : Bytes)
      → Runs P env D n s events n' s'
      → AllAvoid events file
      → HoldsFile P s.fs file content
      → HoldsFile P s'.fs file content
  Runs-spares n _ s _ _ file content (stays _ _) avoid has = has
  Runs-spares n n'' s s'' _ file content (steps _ n' _ _ s' _ e events step run) avoid has =
      Runs-spares n' n'' s' s'' events file content run avoid.1
        (Step-spares n n' s s' e file content step avoid.0 has)
