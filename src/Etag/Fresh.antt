-- ===== src/Etag/Fresh.antt =====
-- get_etag of src/common/attributes.c: of a file, and what it does to the files.
use rs_serve.Base.{
  ℕ, zero, suc, ◌*◌, ◌<◌, ◌≡◌, refl, ◌∙◌, inl, inr, Option, none, some, List, [], ◌∷◌, ◌++◌, arith,
  Bytes, length, true, false, Bool-cases,
}
use rs_serve.Config.{Config}
use rs_serve.Posix.{Posix, enoattr, Stat, Call, returned, failed, SameFiles, IsPosix, Process}
use rs_serve.Attributes.{Read, null_read, get_xattr}
use rs_serve.Attributes.Buffer.{get_xattr-loses_etag}
use rs_serve.ContentType.{user_key, get_meta, set_meta}
use rs_serve.Etag.{
  hex, etag_key, is_dot, hashed_etag, Tagged, tagged, crashed, too_deep, finish_etag, after_child,
  hash_file, hash_entries, hash_path, or_calculate, hash_children, calculate_etag, get_etag,
  child_path,
}

length-hex : (d : Bytes) → length (hex d) ≡ 2 * length d
unfolding hex
length-hex [] = refl
length-hex (b ∷ d) = omega (arith, length-hex d)

module _ (P : Posix) (cfg : Config) (process : Process) (sha1 : Bytes → Bytes) where
  -- The attribute holds no ETag, or one as get_etag stores it: more than 32 bytes.
  pub data HasFullEtag (fs : P.Fs) (path : Bytes) : Type 0 where
    unset_etag : P.attribute fs path (user_key etag_key) ≡ failed enoattr → HasFullEtag fs path
    full_etag :
        (v : Bytes)
        → P.attribute fs path (user_key etag_key) ≡ returned v
        → 32 < length v
        → HasFullEtag fs path

  get_meta-HasFullEtag :
      (fs : P.Fs) (path : Bytes)
      → cfg.use_xattr ≡ true
      → HasFullEtag fs path
      → get_meta P cfg process fs path etag_key 41 ≡ some null_read
  unfolding get_meta
  get_meta-HasFullEtag fs path x (unset_etag e) = rw (x, e) (unfold get_xattr in refl)
  get_meta-HasFullEtag fs path x (full_etag v e h) =
      rw (x, e, get_xattr-loses_etag v process.errno h)

  -- With extended attributes in use, the ETag of a readable file is the digest of its present content in
  -- hexadecimal digits, whatever value of more than 32 bytes is stored as its ETag; it is stored again.
  pub get_etag-file :
      (fuel : ℕ) (fs : P.Fs) (path content : Bytes) (st : Stat)
      → cfg.use_xattr ≡ true
      → HasFullEtag fs path
      → P.can_open fs path ≡ true
      → P.stat fs path ≡ returned st
      → st.is_dir ≡ false
      → P.read_all fs path ≡ returned content
      → get_etag P cfg process sha1 (suc fuel) fs path
        ≡ tagged
            (P.setxattr fs path (user_key etag_key) (hex (sha1 content))).0
            (some (hex (sha1 content)))
  unfolding get_etag finish_etag set_meta
  get_etag-file fuel fs path content st x kept opens stat file read =
      rw (get_meta-HasFullEtag fs path x kept, opens, stat, file, read, x)

pub SameFiles-refl : (P : Posix) (fs : P.Fs) → SameFiles P fs fs
SameFiles-refl P fs = record {
  same_stat = λ p. refl;
  same_read = λ p. refl;
  same_open = λ p. refl;
  same_entries = λ p. refl;
}

pub SameFiles-trans :
    (P : Posix) {a b c : P.Fs} → SameFiles P a b → SameFiles P b c → SameFiles P a c
SameFiles-trans P h k = record {
  same_stat = λ p. k.same_stat p ∙ h.same_stat p;
  same_read = λ p. k.same_read p ∙ h.same_read p;
  same_open = λ p. k.same_open p ∙ h.same_open p;
  same_entries = λ p. k.same_entries p ∙ h.same_entries p;
}

module _ (P : Posix) (cfg : Config) (process : Process) (sha1 : Bytes → Bytes)
    (law : IsPosix P) where
  -- What a run of get_etag leaves has the same files.
  abbrev pub KeepsFiles : P.Fs → Tagged P.Fs → Type 0
  KeepsFiles fs (tagged fs' e) = SameFiles P fs fs'
  KeepsFiles fs crashed = Unit
  KeepsFiles fs too_deep = Unit

  finish_etag-KeepsFiles :
      (fs : P.Fs) (path content : Bytes)
      → KeepsFiles fs (finish_etag P cfg process sha1 fs path content)
  unfolding finish_etag set_meta
  finish_etag-KeepsFiles fs path content = elim (Bool-cases cfg.use_xattr) [
    | inl x ↦ rw x (law.setxattr-files fs path (user_key etag_key) (hex (sha1 content)))
    | inr x ↦ rw x tt
  ]

  after_child-KeepsFiles :
      (fs0 fs : P.Fs) (t : Tagged P.Fs) (next : P.Fs → Bytes → Tagged P.Fs)
      → SameFiles P fs0 fs
      → KeepsFiles fs t
      → ((fs' : P.Fs) (etag : Bytes) → SameFiles P fs0 fs' → KeepsFiles fs0 (next fs' etag))
      → KeepsFiles fs0 (after_child t next)
  after_child-KeepsFiles fs0 fs (tagged fs' none) next same k rest = tt
  after_child-KeepsFiles fs0 fs (tagged fs' (some e)) next same k rest =
      rest fs' e (SameFiles-trans P same k)
  after_child-KeepsFiles fs0 fs crashed next same k rest = tt
  after_child-KeepsFiles fs0 fs too_deep next same k rest = tt

  weaken :
      (fs0 fs : P.Fs) (t : Tagged P.Fs) → SameFiles P fs0 fs → KeepsFiles fs t → KeepsFiles fs0 t
  weaken fs0 fs (tagged fs' e) same k = SameFiles-trans P same k
  weaken fs0 fs crashed same k = tt
  weaken fs0 fs too_deep same k = tt

  module _ (tag : P.Fs → Bytes → Tagged P.Fs)
      (keep : (fs : P.Fs) (path : Bytes) → KeepsFiles fs (tag fs path)) where
    hash_children-KeepsFiles :
        (fs0 fs : P.Fs) (path : Bytes) (names : List Bytes) (hashed : Bytes)
        → SameFiles P fs0 fs
        → KeepsFiles fs0 (hash_children P cfg process sha1 tag fs path names hashed)
    unfolding hash_children
    hash_children-KeepsFiles fs0 fs path [] hashed same =
        weaken fs0 fs (finish_etag P cfg process sha1 fs path hashed) same
          (finish_etag-KeepsFiles fs path hashed)
    hash_children-KeepsFiles fs0 fs path (name ∷ names) hashed same =
        elim (Bool-cases (is_dot name)) [
          | inl dot ↦ rw dot (hash_children-KeepsFiles fs0 fs path names hashed same)
          | inr child ↦ rw child (
              after_child-KeepsFiles fs0 fs (tag fs (child_path path name)) _ same
                (keep fs (child_path path name))
                (λ fs' etag s.
                  hash_children-KeepsFiles fs0 fs' path names
                    (hashed ++ hashed_etag P cfg process sha1 etag) s))
        ]

    hash_file-KeepsFiles :
        (fs : P.Fs) (path : Bytes) (r : Call Bytes)
        → KeepsFiles fs (hash_file P cfg process sha1 fs path r)
    hash_file-KeepsFiles fs path (returned content) = finish_etag-KeepsFiles fs path content
    hash_file-KeepsFiles fs path (failed e) = SameFiles-refl P fs

    hash_entries-KeepsFiles :
        (fs : P.Fs) (path : Bytes) (r : Call (List Bytes))
        → KeepsFiles fs (hash_entries P cfg process sha1 tag fs path r)
    hash_entries-KeepsFiles fs path (returned names) =
        hash_children-KeepsFiles fs fs path names [] (SameFiles-refl P fs)
    hash_entries-KeepsFiles fs path (failed e) = SameFiles-refl P fs

    hash_path-KeepsFiles :
        (fs : P.Fs) (path : Bytes) (r : Call Stat)
        → KeepsFiles fs (hash_path P cfg process sha1 tag fs path r)
    hash_path-KeepsFiles fs path (failed e) = SameFiles-refl P fs
    hash_path-KeepsFiles fs path (returned st) = elim (Bool-cases st.is_dir) [
      | inl d ↦ rw d (hash_entries-KeepsFiles fs path (P.entries fs path))
      | inr f ↦ rw f (hash_file-KeepsFiles fs path (P.read_all fs path))
    ]

    calculate_etag-KeepsFiles :
        (fs : P.Fs) (path : Bytes) → KeepsFiles fs (calculate_etag P cfg process sha1 tag fs path)
    unfolding calculate_etag
    calculate_etag-KeepsFiles fs path = elim (Bool-cases (P.can_open fs path)) [
      | inl o ↦ rw o (hash_path-KeepsFiles fs path (P.stat fs path))
      | inr c ↦ rw c (SameFiles-refl P fs)
    ]

    or_calculate-KeepsFiles :
        (fs : P.Fs) (path : Bytes) (r : Option Read)
        → KeepsFiles fs (or_calculate P cfg process sha1 tag fs path r)
    or_calculate-KeepsFiles fs path none = tt
    or_calculate-KeepsFiles fs path (some r) = text_case r.text
      where
        text_case :
            (t : Option Bytes)
            → KeepsFiles fs (
                or_calculate P cfg process sha1 tag fs path
                  (some (record { text = t; overran = r.overran })))
        text_case none = calculate_etag-KeepsFiles fs path
        text_case (some e) = SameFiles-refl P fs

  -- However deep the tree, get_etag changes no file and no directory.
  pub get_etag-KeepsFiles :
      (fuel : ℕ) (fs : P.Fs) (path : Bytes)
      → KeepsFiles fs (get_etag P cfg process sha1 fuel fs path)
  unfolding get_etag
  get_etag-KeepsFiles zero fs path = tt
  get_etag-KeepsFiles (suc fuel) fs path =
      or_calculate-KeepsFiles (get_etag P cfg process sha1 fuel) (get_etag-KeepsFiles fuel) fs path
        (get_meta P cfg process fs path etag_key 41)
