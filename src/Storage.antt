-- ===== src/Storage.antt =====
-- The storage handler, src/handler/storage.c: what its four handlers share.
pub mod Read
pub mod Put
pub mod Delete
pub mod Files
pub mod Outcome
pub mod RoundTrip
pub mod Others
use rs_serve.Base.{
  ℕ, zero, suc, ◌+◌, ◌/◌, ◌%◌, Bool, true, false, Option, none, some, List, [], ◌∷◌, ◌++◌, ltb,
  Bytes, if◌then◌else◌,
}
use rs_serve.Config.{Config}
use rs_serve.User.{Users}
use rs_serve.Posix.{Posix, Errno, Process}
use rs_serve.Response.{Response, set_status}
use rs_serve.Etag.{Tagged, tagged, crashed, too_deep}

-- A handler returns its status, with the file system and the reply as it left them. Or it never
-- replies: the process ends, the loop of serve_file hangs, or the fuel is too small.
pub data Handled (Fs : Type 0) : Type 0 where
  handled : Fs → Response → Handled Fs
  process_ends : Handled Fs
  hangs : Handled Fs
  out_of_fuel : Handled Fs

-- The loop over the scopes of a record with fields that are not set: it finds one that matches, or none,
-- or the process ends.
pub data Garbage : Type 0 where
  matches_scope matches_none crashes : Garbage

-- What surrounds the handlers. `fuel` bounds the depth of the directory tree, for get_etag.
pub record Environment (P : Posix) : Type 0 where
  pub cfg : Config
  pub users : Users
  pub process : Process
  pub sha1 : Bytes → Bytes
  -- magic_file
  pub magic : P.Fs → Bytes → Option Bytes
  -- `S_ISDIR` of an uninitialised `struct stat`, and the cells of a new JSON writer
  pub junk : Bool
  pub cells : ℕ → ℕ
  pub fuel : ℕ
  -- what evhtp_header_new makes of a NULL value: a header with this one, or the end of the process
  pub null_header : Option Bytes
  -- what a record that does not unpack makes of the loop over its scopes in authorize_request
  pub garbage : Garbage

module _ {Fs : Type 0} where
  -- `return status`
  abbrev pub reply : Fs → Response → ℕ → Handled Fs
  reply fs r status = handled fs (set_status r status)

  -- After get_etag: `null` for NULL.
  abbrev pub with_etag : Tagged Fs → (Fs → Handled Fs) → (Fs → Bytes → Handled Fs) → Handled Fs
  with_etag (tagged fs none) null next = null fs
  with_etag (tagged fs (some etag)) null next = next fs etag
  with_etag crashed null next = process_ends
  with_etag too_deep null next = out_of_fuel

  -- After a call that may end the process.
  abbrev pub or_ends {ℓ} : {A : Type ℓ} → Option A → (A → Handled Fs) → Handled Fs
  or_ends none next = process_ends
  or_ends (some a) next = next a

-- the digits that snprintf(…, 24, "%ld", …) has room for
abbrev pub max_digits : ℕ
max_digits = 23
