-- ===== src/Etag.antt =====
-- `get_etag` of src/common/attributes.c. SHA-1 is a parameter: of OpenSSL the program uses the digest
-- of the bytes handed to SHA1_Update, taken together.
pub mod Fresh
use rs_serve.Base.{
  ℕ, zero, suc, ◌+◌, ◌-◌, ◌/◌, ◌%◌, Bool, true, false, ◌||◌, Option, none, some, List, [], ◌∷◌,
  ◌++◌, ◌==◌, ltb, Bytes, codes, if◌then◌else◌, take,
}
use rs_serve.CString.{str_eq}
use rs_serve.Config.{Config}
use rs_serve.Posix.{Posix, Errno, Stat, Call, returned, failed, Process}
use rs_serve.Attributes.{Read}
use rs_serve.ContentType.{get_meta, set_meta}

unfoldable pub hex_digit : ℕ → ℕ
hex_digit n = if ltb n 10 then b'0' + n else b'a' + (n - 10)

-- The loop of sprintf(etag, "%s%02x", etag, buf[i]).
unfoldable pub hex : Bytes → Bytes
unfolding hex_digit
hex [] = []
hex (b ∷ bs) = hex_digit (b / 16) ∷ hex_digit (b % 16) ∷ hex bs

abbrev pub etag_key : Bytes
etag_key = codes "etag"

-- `disk_path[path_len - 1] == '/' ? "%s%s" : "%s/%s"`
unfoldable pub ends_with_slash : Bytes → Bool
ends_with_slash [] = false
ends_with_slash (c ∷ []) = if c == b'/' then true else false
ends_with_slash (c ∷ d ∷ s) = ends_with_slash (d ∷ s)

unfoldable pub child_path : Bytes → Bytes → Bytes
unfolding ends_with_slash
child_path path name = if ends_with_slash path then path ++ name else path ++ (b'/' ∷ name)

abbrev pub is_dot : Bytes → Bool
is_dot name = str_eq name (codes ".") || str_eq name (codes "..")

-- The file system afterwards, with an ETag or NULL; or the process ends (a NULL is hashed); or
-- the tree is deeper than the fuel.
pub data Tagged (Fs : Type 0) : Type 0 where
  tagged : Fs → Option Bytes → Tagged Fs
  crashed : Tagged Fs
  too_deep : Tagged Fs

-- The ETag of a child goes into the sum; SHA1_Update of a NULL ends the process.
abbrev pub after_child : {Fs : Type 0} → Tagged Fs → (Fs → Bytes → Tagged Fs) → Tagged Fs
after_child (tagged fs none) next = crashed
after_child (tagged fs (some etag)) next = next fs etag
after_child crashed next = crashed
after_child too_deep next = too_deep

module _ (P : Posix) (cfg : Config) (process : Process) (sha1 : Bytes → Bytes) where
  -- The end of get_etag: the digest is stored, whatever comes of it, and returned.
  unfoldable pub finish_etag : P.Fs → Bytes → Bytes → Tagged P.Fs
  unfolding hex
  finish_etag fs path content =
      let etag = hex (sha1 content) in
      elim (set_meta P cfg process fs path etag_key etag) [
        | none ↦ crashed
        | some fs' ↦ tagged fs' (some etag)
      ]

  -- SHA1_Update reads 40 bytes, also where the ETag is shorter.
  unfoldable pub hashed_etag : Bytes → Bytes
  hashed_etag etag = take 40 (etag ++ (0 ∷ process.behind etag))

  -- The sum over the children of a directory; `tag` is get_etag at a child.
  unfoldable pub hash_children :
      (P.Fs → Bytes → Tagged P.Fs) → P.Fs → Bytes → List Bytes → Bytes → Tagged P.Fs
  unfolding finish_etag child_path hashed_etag
  hash_children tag fs path [] hashed = finish_etag fs path hashed
  hash_children tag fs path (name ∷ names) hashed =
      let skipped = hash_children tag fs path names hashed in
      let child =
        after_child (tag fs (child_path path name))
          (λ fs' etag. hash_children tag fs' path names (hashed ++ hashed_etag etag)) in
      if is_dot name then skipped else child

  abbrev pub hash_file : P.Fs → Bytes → Call Bytes → Tagged P.Fs
  hash_file fs path (returned content) = finish_etag fs path content
  hash_file fs path (failed e) = tagged fs none

  abbrev pub hash_entries :
      (P.Fs → Bytes → Tagged P.Fs) → P.Fs → Bytes → Call (List Bytes) → Tagged P.Fs
  hash_entries tag fs path (returned names) = hash_children tag fs path names []
  hash_entries tag fs path (failed e) = tagged fs none

  abbrev pub hash_path : (P.Fs → Bytes → Tagged P.Fs) → P.Fs → Bytes → Call Stat → Tagged P.Fs
  hash_path tag fs path (returned st) =
      if st.is_dir
      then hash_entries tag fs path (P.entries fs path)
      else hash_file fs path (P.read_all fs path)
  hash_path tag fs path (failed e) = tagged fs none

  unfoldable pub calculate_etag : (P.Fs → Bytes → Tagged P.Fs) → P.Fs → Bytes → Tagged P.Fs
  calculate_etag tag fs path =
      if P.can_open fs path then hash_path tag fs path (P.stat fs path) else tagged fs none

  abbrev pub or_calculate : (P.Fs → Bytes → Tagged P.Fs) → P.Fs → Bytes → Option Read → Tagged P.Fs
  or_calculate tag fs path none = crashed
  or_calculate tag fs path (some r) = elim r.text [
    | none ↦ calculate_etag tag fs path
    | some etag ↦ tagged fs (some etag)
  ]

  -- The fuel bounds the depth of the directory tree.
  unfoldable pub get_etag : ℕ → P.Fs → Bytes → Tagged P.Fs
  unfolding hash_children calculate_etag
  get_etag zero fs path = too_deep
  get_etag (suc fuel) fs path =
      or_calculate (get_etag fuel) fs path (get_meta P cfg process fs path etag_key 41)
