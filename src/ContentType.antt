-- ===== src/ContentType.antt =====
-- The content type in extended attributes: `content_type_to_xattr`, `content_type_from_xattr` and the
-- macros get_meta and set_meta of src/common/attributes.h.
-- In a result `none` stands for the end of the process: abort(), the use of a NULL pointer, or a write
-- past a buffer.
pub mod RoundTrip
pub mod Files
use rs_serve.Base.{
  ℕ, Bool, true, false, Option, none, some, List, [], ◌∷◌, ◌++◌, Bytes, codes, if◌then◌else◌, ◌&&◌,
  not,
}
use rs_serve.CString.{strtok, strstr}
use rs_serve.Config.{Config}
use rs_serve.Posix.{Posix, Errno, Process}
use rs_serve.Attributes.{Read, get_xattr}

abbrev pub mime_type_key : Bytes
mime_type_key = codes "mime_type"

abbrev pub charset_key : Bytes
charset_key = codes "charset"

-- "user." key
abbrev pub user_key : Bytes → Bytes
user_key key = codes "user." ++ key

-- `rest`, what is left behind the mime type, holds the charset behind `charset=`.
unfoldable pub charset_of : Bytes → Bytes
charset_of rest = elim (strstr rest (codes "charset=")) [
  | none ↦ codes "UTF-8"
  | some (before, after) ↦ after
]

unfoldable pub join_charset : Bytes → Option Bytes → Bytes
join_charset mime none = mime
join_charset mime (some charset) = mime ++ (codes "; charset=" ++ charset)

module _ (P : Posix) (cfg : Config) (process : Process) where
  -- A NUL behind the buffer, where malloc has left no room, ends the process.
  unfoldable pub unless_overran : Read → Option Read
  unless_overran r = if r.overran && not process.roomy then none else some r

  -- get_meta_attr aborts.
  unfoldable pub get_meta : P.Fs → Bytes → Bytes → ℕ → Option Read
  unfolding unless_overran
  get_meta fs path key maxlen =
      if cfg.use_xattr
      then unless_overran (get_xattr (P.attribute fs path (user_key key)) maxlen process.errno)
      else none

  -- set_meta_attr aborts. No caller looks at the result of set_xattr.
  unfoldable pub set_meta : P.Fs → Bytes → Bytes → Bytes → Option P.Fs
  set_meta fs path key value =
      if cfg.use_xattr then some (P.setxattr fs path (user_key key) value).0 else none

  unfoldable pub charset_read : Bytes → Option Read → Option (Option Bytes)
  charset_read mime none = none
  charset_read mime (some r) = some (some (join_charset mime r.text))

  unfoldable pub with_charset : P.Fs → Bytes → Option Bytes → Option (Option Bytes)
  with_charset fs path none = some none
  with_charset fs path (some mime) = charset_read mime (get_meta fs path charset_key 64)

  unfoldable pub type_read : P.Fs → Bytes → Option Read → Option (Option Bytes)
  type_read fs path none = none
  type_read fs path (some r) = with_charset fs path r.text

  -- `some none` is NULL.
  unfoldable pub content_type_from_xattr : P.Fs → Bytes → Option (Option Bytes)
  content_type_from_xattr fs path = type_read fs path (get_meta fs path mime_type_key 128)

  -- Both values go with their NUL.
  unfoldable pub store_content_type : P.Fs → Bytes → Bytes → Bytes → Option P.Fs
  store_content_type fs path mime charset =
      elim (set_meta fs path mime_type_key (mime ++ (0 ∷ []))) [
        | none ↦ none
        | some fs' ↦ set_meta fs' path charset_key (charset ++ (0 ∷ []))
      ]

  -- With no token strtok_r returns NULL, whose length is then taken.
  unfoldable pub store_token : P.Fs → Bytes → Option (Bytes × Bytes) → Option P.Fs
  unfolding store_content_type charset_of
  store_token fs path none = none
  store_token fs path (some (mime, rest)) = store_content_type fs path mime (charset_of rest)

  unfoldable pub content_type_to_xattr : P.Fs → Bytes → Bytes → Option P.Fs
  unfolding store_token
  content_type_to_xattr fs path content_type = store_token fs path (strtok b';' content_type)
