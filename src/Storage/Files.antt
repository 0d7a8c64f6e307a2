-- ===== src/Storage/Files.antt =====
-- Files on disk, as the handlers of src/handler/storage.c leave and find them.
use rs_serve.Base.{
  ℕ, suc, ◌≡◌, refl, ap, ◌∙◌, inl, inr, Bool, true, false, Option, none, some, Bytes, length,
  if◌then◌else◌, Bool-cases, ◌&&◌, not, arith,
}
use rs_serve.Config.{Config}
use rs_serve.Posix.{Posix, Stat, returned, SameFiles, IsPosix, Process, stored_part}
use rs_serve.Attributes.{get_xattr}
use rs_serve.ContentType.{get_meta, set_meta, user_key, unless_overran}
use rs_serve.Etag.{
  Tagged, tagged, get_etag, or_calculate, calculate_etag, finish_etag, etag_key, hex,
}
use rs_serve.Etag.Fresh.{SameFiles-refl}
use rs_serve.Storage.{Environment}

-- A readable regular file with this content.
pub record HoldsFile (P : Posix) (fs : P.Fs) (path content : Bytes) : Type 0 where
  pub st : Stat
  pub stats : P.stat fs path ≡ returned st
  pub regular : st.is_dir ≡ false
  pub opens : P.can_open fs path ≡ true
  pub reads : P.read_all fs path ≡ returned content

pub HoldsFile-SameFiles :
    (P : Posix) (fs fs' : P.Fs) (path content : Bytes)
    → SameFiles P fs fs'
    → HoldsFile P fs path content
    → HoldsFile P fs' path content
HoldsFile-SameFiles P fs fs' path content same h = record {
  st = h.st;
  stats = same.same_stat path ∙ h.stats;
  regular = h.regular;
  opens = same.same_open path ∙ h.opens;
  reads = same.same_read path ∙ h.reads;
}

module _ (P : Posix) (cfg : Config) (process : Process) (sha1 : Bytes → Bytes) where
  calculate_etag-file :
      (tag : P.Fs → Bytes → Tagged P.Fs) (fs : P.Fs) (path content : Bytes)
      → cfg.use_xattr ≡ true
      → HoldsFile P fs path content
      → calculate_etag P cfg process sha1 tag fs path
        ≡ tagged
            (P.setxattr fs path (user_key etag_key) (hex (sha1 content))).0
            (some (hex (sha1 content)))
  unfolding calculate_etag finish_etag set_meta
  calculate_etag-file tag fs path content x h = rw (h.opens, h.stats, h.regular, h.reads, x)

  or_calculate-file :
      (tag : P.Fs → Bytes → Tagged P.Fs) (fs : P.Fs) (path content : Bytes) (o : Option Bytes)
      (overran : Bool)
      → cfg.use_xattr ≡ true
      → HoldsFile P fs path content
      → (fs' : P.Fs) × (etag : Bytes) × (or_calculate P cfg process sha1 tag fs path
            (some (record { text = o; overran = overran }))
          ≡ tagged fs' (some etag))
  or_calculate-file tag fs path content (some etag) overran x h = (fs, etag, refl)
  or_calculate-file tag fs path content none overran x h = (
    (P.setxattr fs path (user_key etag_key) (hex (sha1 content))).0,
    hex (sha1 content),
    calculate_etag-file tag fs path content x h,
  )

  pub get_meta-used :
      (fs : P.Fs) (path key : Bytes) (maxlen : ℕ)
      → cfg.use_xattr ≡ true
      → process.roomy ≡ true
      → get_meta P cfg process fs path key maxlen
        ≡ some (get_xattr (P.attribute fs path (user_key key)) maxlen process.errno)
  unfolding get_meta unless_overran
  get_meta-used fs path key maxlen x roomy =
      let read = get_xattr (P.attribute fs path (user_key key)) maxlen process.errno in
      let survives : (read.overran && not true) ≡ false = ground arith in
      rw (x, roomy, survives) refl

  -- A regular file has an ETag, whatever its attributes hold.
  pub get_etag-exists :
      (fuel : ℕ) (fs : P.Fs) (path content : Bytes)
      → cfg.use_xattr ≡ true
      → process.roomy ≡ true
      → HoldsFile P fs path content
      → (fs' : P.Fs) × (etag : Bytes) × (get_etag P cfg process sha1 (suc fuel) fs path
          ≡ tagged fs' (some etag))
  unfolding get_etag
  get_etag-exists fuel fs path content x roomy h =
      let read = get_xattr (P.attribute fs path (user_key etag_key)) 41 process.errno in
      let (fs', etag, e) =
        or_calculate-file (get_etag P cfg process sha1 fuel) fs path content read.text read.overran
          x h in
      (
        fs',
        etag,
        ap (or_calculate P cfg process sha1 (get_etag P cfg process sha1 fuel) fs path)
              (get_meta-used fs path etag_key 41 x roomy)
            ∙ e,
      )

module _ (P : Posix) (law : IsPosix P) where
  pub own-SameFiles :
      (existed : Bool) (opened : P.Fs) (path : Bytes) (uid gid : ℕ)
      → SameFiles P opened (if existed then opened else P.chown opened path uid gid)
  own-SameFiles existed opened path uid gid = elim (Bool-cases existed) [
    | inl x ↦ rw x (SameFiles-refl P opened)
    | inr x ↦ rw x (law.chown-files opened path uid gid)
  ]

  -- The file that is created and written.
  pub created-HoldsFile :
      (fs opened owned : P.Fs) (path body : Bytes)
      → P.create fs path ≡ returned opened
      → SameFiles P opened owned
      → HoldsFile P (P.write owned path body).0 path (stored_part (P.write owned path body).1 body)
  created-HoldsFile fs opened owned path body e same =
      let empty = same.same_stat path ∙ law.create-stat fs opened path e in
      record {
        st = record {
          is_dir = false;
          size = length (stored_part (P.write owned path body).1 body);
        };
        stats = law.write-stat owned path body empty;
        regular = refl;
        opens =
            law.write-open owned path body ∙ same.same_open path ∙ law.create-open fs opened path e;
        reads = law.write-read owned path body empty;
      }

module _ (P : Posix) (env : Environment P) where
  -- Extended attributes are used, malloc leaves room for a byte behind a block (a value of 32, 48, … bytes
  -- fills the buffer of get_xattr, and its NUL goes there), and the tree may be at least one level deep.
  pub record IsUsable : Type 0 where
    pub attributes_used : env.cfg.use_xattr ≡ true
    pub roomy : env.process.roomy ≡ true
    pub deeper : ℕ
    pub some_fuel : env.fuel ≡ suc deeper
