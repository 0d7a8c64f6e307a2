-- ===== src/Server.antt =====
-- The running server, src/process/main.c: what the event loop calls. `request_count` is an unsigned int.
pub mod Start
pub mod Runs
pub mod PidFile
pub mod Writes
pub mod Spares
pub mod Main
pub mod Messages
use rs_serve.Base.{ℕ, ◌+◌, ◌-◌, ◌%◌, ◌^◌, Option, none, some}
use rs_serve.Request.{Request}
use rs_serve.Auth.Database.{Database}
use rs_serve.Posix.{Posix}
use rs_serve.Storage.{Handled, Environment, Garbage}
use rs_serve.Dispatch.{dispatch_storage}

-- ssi_signo
pub data Signal : Type 0 where
  sigint sigterm other_signal : Signal

-- The status that handle_signal exits with, if it does; its argument is what read() got. exit() also
-- removes a PID file.
unfoldable pub handle_signal : Option Signal → Option ℕ
handle_signal none = none
handle_signal (some sigint) = some 0
handle_signal (some sigterm) = some 0
handle_signal (some other_signal) = none

-- request_count++
abbrev pub count_up : ℕ → ℕ
count_up request_count = (request_count + 1) % 2 ^ 32

-- request_count--
unfoldable pub finish_request : ℕ → ℕ
finish_request request_count = (request_count + (2 ^ 32 - 1)) % 2 ^ 32

-- `garbage` is what the memory of this request makes of a record that does not unpack.
unfoldable pub handle_storage :
    (P : Posix)
    → Environment P
    → (D : Database) → D.Db
    → ℕ
    → Garbage
    → Request
    → P.Fs
    → ℕ × Handled P.Fs
handle_storage P env D db request_count garbage req fs =
    (count_up request_count, dispatch_storage P (record env { garbage = garbage }) D db req fs)
