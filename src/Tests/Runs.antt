-- ===== src/Tests/Runs.antt =====
-- A run of the event loop of src/process/main.c.
use rs_serve.Storage.{matches_none}
use rs_serve.Base.{refl, ◌⊎◌, some, List, [], ◌∷◌}
use rs_serve.Posix.{SameFiles}
use rs_serve.Posix.InMemory.{in_memory, in_memory-IsPosix}
use rs_serve.Server.{other_signal, handle_storage, finish_request}
use rs_serve.Server.Runs.{
  Event, starts, finishes, signalled, tokens_set, State, start_step, finish_step, signal_step,
  tokens_step, Runs, stays, steps, Counts, Runs-Counts,
}
use rs_serve.Server.Writes.{GrantedIn, Runs-GrantedIn}
use rs_serve.Tests.Requests.{write_request, store}
use rs_serve.Tests.FileSystem.{db_of_tokens, environment, files, put_done}

abbrev before : State in_memory db_of_tokens
before = record { request_count = 0; fs = files; db = store }

abbrev in_progress : State in_memory db_of_tokens
in_progress = record {
  request_count =
      (handle_storage in_memory environment db_of_tokens store 0 matches_none write_request
        files).0;
  fs = put_done.0;
  db = store;
}

abbrev finished : State in_memory db_of_tokens
finished = record in_progress { request_count = finish_request in_progress.request_count }

abbrev after : State in_memory db_of_tokens
after = record finished { db = [] }

-- A PUT is answered and finished, a signal arrives, and the tokens are taken away.
abbrev events : List (Event db_of_tokens)
events = starts write_request ∷ finishes ∷ signalled (some other_signal) ∷ tokens_set [] ∷ []

run : Runs in_memory environment db_of_tokens 0 before events 0 after
unfolding handle_storage rs_serve.Server.handle_signal
run =
    steps 0 1 0 before in_progress after (starts write_request) _
      (start_step 0 before matches_none write_request put_done.0 put_done.1 put_done.2)
      (steps 1 0 0 in_progress finished after finishes _ (finish_step 0 in_progress) (
        steps 0 0 0 finished finished after (signalled (some other_signal)) _
          (signal_step 0 finished (some other_signal) refl)
          (steps 0 0 0 finished after after (tokens_set []) _ (tokens_step 0 finished [])
            (stays 0 after))))

Runs-Counts_example : Counts in_memory environment db_of_tokens 0 after
Runs-Counts_example =
    Runs-Counts in_memory environment db_of_tokens 0 0 before after events run refl

Runs-GrantedIn_example :
    SameFiles in_memory files put_done.0
    ⊎ GrantedIn in_memory environment in_memory-IsPosix db_of_tokens 0 before events
Runs-GrantedIn_example =
    Runs-GrantedIn in_memory environment in_memory-IsPosix db_of_tokens 0 0 before after events run
