-- ===== src/ContentType/Files.antt =====
-- content_type_to_xattr of src/common/attributes.c and the files.
use rs_serve.Base.{inl, inr, Option, none, some, [], ◌∷◌, ◌++◌, Bytes, Bool-cases}
use rs_serve.CString.{strtok}
use rs_serve.Config.{Config}
use rs_serve.Posix.{Posix, SameFiles, IsPosix, Process}
use rs_serve.ContentType.{
  set_meta, store_content_type, store_token, content_type_to_xattr, charset_of, user_key,
  mime_type_key, charset_key,
}
use rs_serve.Etag.Fresh.{SameFiles-trans}

module _ (P : Posix) (cfg : Config) (process : Process) (law : IsPosix P) where
  -- A step that may end the process changes no file.
  abbrev pub Keeps : P.Fs → Option P.Fs → Type 0
  Keeps fs none = Unit
  Keeps fs (some fs') = SameFiles P fs fs'

  set_meta-Keeps :
      (fs : P.Fs) (path key value : Bytes) → Keeps fs (set_meta P cfg process fs path key value)
  unfolding set_meta
  set_meta-Keeps fs path key value = elim (Bool-cases cfg.use_xattr) [
    | inl x ↦ rw x (law.setxattr-files fs path (user_key key) value)
    | inr x ↦ rw x tt
  ]

  Keeps-then :
      (fs : P.Fs) (first : Option P.Fs) (next : P.Fs → Option P.Fs)
      → Keeps fs first
      → ((fs' : P.Fs) → Keeps fs' (next fs'))
      → Keeps fs (elim first [ none ↦ none | some fs' ↦ next fs' ])
  Keeps-then fs none next k rest = tt
  Keeps-then fs (some fs') next k rest = from (next fs') (rest fs')
    where
      from : (o : Option P.Fs) → Keeps fs' o → Keeps fs o
      from none h = tt
      from (some fs2) h = SameFiles-trans P k h

  store_token-Keeps :
      (fs : P.Fs) (path : Bytes) (t : Option (Bytes × Bytes))
      → Keeps fs (store_token P cfg process fs path t)
  unfolding store_token store_content_type
  store_token-Keeps fs path none = tt
  store_token-Keeps fs path (some (mime, rest)) =
      Keeps-then fs (set_meta P cfg process fs path mime_type_key (mime ++ (0 ∷ []))) _
        (set_meta-Keeps fs path mime_type_key (mime ++ (0 ∷ [])))
        (λ fs'. set_meta-Keeps fs' path charset_key (charset_of rest ++ (0 ∷ [])))

  pub content_type_to_xattr-Keeps :
      (fs : P.Fs) (path mime : Bytes) → Keeps fs (content_type_to_xattr P cfg process fs path mime)
  unfolding content_type_to_xattr
  content_type_to_xattr-Keeps fs path mime = store_token-Keeps fs path (strtok b';' mime)
