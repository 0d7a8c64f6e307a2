-- ===== src/ContentType/RoundTrip.antt =====
-- content_type_to_xattr and content_type_from_xattr of src/common/attributes.c, one after the other.
use rs_serve.Base.{
  ℕ, ◌≤◌, ◌<◌, ◌≡◌, refl, ap, ◌∙◌, ◌≢◌, some, [], ◌∷◌, ◌++◌, arith, Bytes, codes, length,
  length-append, true, All, false,
}
use rs_serve.CString.{str_eq, strtok, break_at, strstr}
use rs_serve.Config.{Config}
use rs_serve.Auth.{IsCString}
use rs_serve.Posix.{Posix, Errno, returned, IsPosix, Process}
use rs_serve.Attributes.{c_string, get_xattr}
use rs_serve.Attributes.Buffer.{get_xattr-reads, get_xattr-not_full}
use rs_serve.ContentType.{
  user_key, mime_type_key, charset_key, charset_of, join_charset, get_meta, set_meta,
  unless_overran, content_type_from_xattr, content_type_to_xattr, type_read, with_charset,
  charset_read, store_content_type, store_token,
}

break_at-append :
    (d : ℕ) (s rest : Bytes) → All (λ c. c ≢ d) s → break_at d (s ++ (d ∷ rest)) ≡ (s, rest)
unfolding break_at
break_at-append d [] rest h = ground arith
break_at-append d (c ∷ s) rest h = ground (arith, break_at-append d s rest h.1)

break_at-whole : (d : ℕ) (s : Bytes) → All (λ c. c ≢ d) s → break_at d s ≡ (s, [])
unfolding break_at
break_at-whole d [] h = refl
break_at-whole d (c ∷ s) h = ground (arith, break_at-whole d s h.1)

c_string-append : (s rest : Bytes) → IsCString s → c_string (s ++ (0 ∷ rest)) ≡ s
unfolding c_string
c_string-append [] rest h = refl
c_string-append (c ∷ s) rest h = ground (arith, c_string-append s rest h.1)

-- A text that goes into an attribute with its NUL, fits the buffers of get_xattr up to 64 bytes, and
-- fills none of them.
pub record FitsAttribute (s : Bytes) : Type 0 where
  pub text_only : IsCString s
  pub short : length s < 64
  pub not_full : (length s ≢ 31) × (length s ≢ 47) × (length s ≢ 63)

-- A mime type has no semicolon and is not empty.
pub record IsMimeType (mime : Bytes) : Type 0 where
  pub fits : FitsAttribute mime
  pub no_semicolon : All (λ c. c ≢ b';') mime
  pub not_empty : mime ≢ []

strtok-mime :
    (mime rest : Bytes) → IsMimeType mime → strtok b';' (mime ++ (b';' ∷ rest)) ≡ some (mime, rest)
unfolding strtok
strtok-mime [] rest h = absurd (h.not_empty refl)
strtok-mime (c ∷ mime) rest h =
    let first = h.no_semicolon.0 in
    ground (arith, break_at-append b';' (c ∷ mime) rest h.no_semicolon)

get_xattr-stored :
    (s : Bytes) (maxlen : ℕ) (errno : Errno)
    → FitsAttribute s
    → 64 ≤ maxlen
    → (get_xattr (returned (s ++ (0 ∷ []))) maxlen errno).text ≡ some s
get_xattr-stored s maxlen errno h room =
    let len = length-append s (0 ∷ []) in
    get_xattr-reads 2 maxlen (s ++ (0 ∷ [])) errno (omega (arith, len))
      (omega (arith, len, h.short)) (omega arith)
    ∙ ap some (c_string-append s [] h.text_only)

get_xattr-has_room :
    (s : Bytes) (maxlen : ℕ) (errno : Errno)
    → FitsAttribute s
    → (get_xattr (returned (s ++ (0 ∷ []))) maxlen errno).overran ≡ false
get_xattr-has_room s maxlen errno h =
    let len = length-append s (0 ∷ []) in
    let (not_31, not_47, not_63) = h.not_full in
    get_xattr-not_full maxlen (s ++ (0 ∷ [])) errno
      (λ j e. omega (arith, len, e, h.short, not_31, not_47, not_63))

module _ (P : Posix) (cfg : Config) (process : Process) (law : IsPosix P) (fs : P.Fs)
    (path mime charset : Bytes) where
  -- After the first and after the second setxattr.
  abbrev pub typed : P.Fs
  typed = (P.setxattr fs path (user_key mime_type_key) (mime ++ (0 ∷ []))).0

  abbrev pub stored : P.Fs
  stored = (P.setxattr typed path (user_key charset_key) (charset ++ (0 ∷ []))).0

  -- Both attributes can be set.
  pub record Sets : Type 0 where
    pub enabled : cfg.use_xattr ≡ true
    pub sets_type : (P.setxattr fs path (user_key mime_type_key) (mime ++ (0 ∷ []))).1 ≡ returned tt
    pub sets_charset :
        (P.setxattr typed path (user_key charset_key) (charset ++ (0 ∷ []))).1 ≡ returned tt

  type_attribute :
      Sets → P.attribute stored path (user_key mime_type_key) ≡ returned (mime ++ (0 ∷ []))
  unfolding str_eq
  type_attribute sets =
      law.attribute-setxattr typed path (user_key charset_key) (charset ++ (0 ∷ []))
        (user_key mime_type_key) sets.sets_charset
      ∙ law.attribute-setxattr fs path (user_key mime_type_key) (mime ++ (0 ∷ []))
          (user_key mime_type_key) sets.sets_type

  charset_attribute :
      Sets → P.attribute stored path (user_key charset_key) ≡ returned (charset ++ (0 ∷ []))
  unfolding str_eq
  charset_attribute sets =
      law.attribute-setxattr typed path (user_key charset_key) (charset ++ (0 ∷ []))
        (user_key charset_key) sets.sets_charset

  meta_stored :
      (key text : Bytes) (maxlen : ℕ)
      → cfg.use_xattr ≡ true
      → FitsAttribute text
      → P.attribute stored path (user_key key) ≡ returned (text ++ (0 ∷ []))
      → get_meta P cfg process stored path key maxlen
        ≡ some (get_xattr (returned (text ++ (0 ∷ []))) maxlen process.errno)
  unfolding get_meta unless_overran
  meta_stored key text maxlen on fits attr =
      rw (on, attr, get_xattr-has_room text maxlen process.errno fits)

  from-stored :
      Sets
      → FitsAttribute mime
      → FitsAttribute charset
      → content_type_from_xattr P cfg process stored path
        ≡ some (some (join_charset mime (some charset)))
  unfolding content_type_from_xattr type_read with_charset charset_read
  from-stored sets m c = rw (
    meta_stored mime_type_key mime 128 sets.enabled m (type_attribute sets),
    get_xattr-stored mime 128 process.errno m (omega arith),
    meta_stored charset_key charset 64 sets.enabled c (charset_attribute sets),
    get_xattr-stored charset 64 process.errno c (omega arith),
  )

  to-stored :
      Sets
      → IsMimeType mime
      → content_type_to_xattr P cfg process fs path (join_charset mime (some charset)) ≡ some stored
  unfolding content_type_to_xattr store_token store_content_type set_meta join_charset charset_of
      strstr
  to-stored sets m = rw (strtok-mime mime (codes " charset=" ++ charset) m, sets.enabled)

  -- A mime type and a charset of less than 64 bytes, but not of 31, 47 or 63, the mime type not empty and
  -- without `;`, are stored from `mime; charset=charset` as two attributes, if both can be set, and are
  -- read back as they were, with no write past a buffer.
  pub content_type_from-to :
      Sets
      → IsMimeType mime
      → FitsAttribute charset
      → (content_type_to_xattr P cfg process fs path (join_charset mime (some charset))
          ≡ some stored)
        × (content_type_from_xattr P cfg process stored path
            ≡ some (some (join_charset mime (some charset))))
  content_type_from-to sets m c = (to-stored sets m, from-stored sets m.fits c)
