-- ===== src/Auth.antt =====
-- The data of src/common/auth.h.
pub mod Codec
pub mod Handle
pub mod Print
pub mod Database
pub mod Store
use rs_serve.Base.{ℕ, ◌≢◌, ◌<◌, ◌^◌, List, Bytes, All, length}

-- struct rs_scope; `write` is a `char`
pub record Scope : Type 0 where
  pub name : Bytes
  pub write : ℕ

-- struct rs_authorization; `scopes.count` is the length of the list
pub record Authorization : Type 0 where
  pub username : Bytes
  pub token : Bytes
  pub scopes : List Scope

-- A C string in memory: no NUL before its end.
abbrev pub IsCString : Bytes → Type 0
IsCString s = All (λ c. c ≢ 0) s

pub record IsScope (s : Scope) : Type 0 where
  pub name_text : IsCString s.name
  pub write_char : s.write < 256

-- What a value of the C types always satisfies.
pub record IsAuthorization (a : Authorization) : Type 0 where
  pub username_text : IsCString a.username
  pub token_text : IsCString a.token
  pub scopes_valid : All IsScope a.scopes
  pub count_fits : length a.scopes < 2 ^ 32
