-- ===== src/DiskPath/Traversal.antt =====
-- What `make_disk_path` of src/handler/storage.c makes of paths that are built against its two loops.
use rs_serve.Base.{
  ℕ, zero, suc, ◌<◌, ◌≡◌, refl, ap, ◌∙◌, ◌≢◌, none, some, [], ◌∷◌, ◌++◌, arith, Bytes, codes,
  length, append_assoc, All, All-append, append-nil, sym,
}
use rs_serve.CString.{strstr}
use rs_serve.DiskPath.{remove_all, parent_segment, double_slash, clean_path, make_disk_path}
use rs_serve.DiskPath.Clean.{IsClean, strstr-absent, remove_all-absent}

-- `/.//./rest` has no `/..`, and becomes `/../rest` when its `//` is cut out.
pub clean_path-climbs :
    (rest : Bytes)
    → IsClean (b'/' ∷ rest)
    → clean_path (codes "/.//./" ++ rest) ≡ codes "/../" ++ rest
unfolding clean_path
clean_path-climbs rest (p, d) = ground (
  arith,
  strstr-absent (b'/' ∷ rest) parent_segment p,
  strstr-absent (b'/' ∷ rest) double_slash d,
)

-- A name of a directory or a file with neither slash nor dot.
abbrev pub IsPlain : Bytes → Type 0
IsPlain name = All (λ c. (c ≢ b'/') × (c ≢ b'.')) name × (name ≢ [])

-- A search for a text that starts with a slash skips a name.
strstr-skip_none :
    (name s n : Bytes)
    → All (λ c. (c ≢ b'/') × (c ≢ b'.')) name
    → strstr s (b'/' ∷ n) ≡ none
    → strstr (name ++ s) (b'/' ∷ n) ≡ none
unfolding strstr
strstr-skip_none [] s n h e = e
strstr-skip_none (c ∷ name) s n h e = ground (arith, strstr-skip_none name s n h.1 e)

strstr-skip_some :
    (name s n before after : Bytes)
    → All (λ c. (c ≢ b'/') × (c ≢ b'.')) name
    → strstr s (b'/' ∷ n) ≡ some (before, after)
    → strstr (name ++ s) (b'/' ∷ n) ≡ some (name ++ before, after)
unfolding strstr
strstr-skip_some [] s n before after h e = e
strstr-skip_some (c ∷ name) s n before after h e =
    ground (arith, strstr-skip_some name s n before after h.1 e)

-- The same behind a slash: neither needle starts there.
parent-behind_name :
    (name s : Bytes)
    → IsPlain name
    → strstr s parent_segment ≡ none
    → strstr (b'/' ∷ (name ++ s)) parent_segment ≡ none
unfolding strstr
parent-behind_name [] s h e = absurd (h.1 refl)
parent-behind_name (c ∷ name) s h e =
    ground (arith, strstr-skip_none (c ∷ name) s (b'.' ∷ b'.' ∷ []) h.0 e)

double_slash-behind_name :
    (name s : Bytes)
    → IsPlain name
    → strstr s double_slash ≡ none
    → strstr (b'/' ∷ (name ++ s)) double_slash ≡ none
unfolding strstr
double_slash-behind_name [] s h e = absurd (h.1 refl)
double_slash-behind_name (c ∷ name) s h e =
    ground (arith, strstr-skip_none (c ∷ name) s (b'/' ∷ []) h.0 e)

double_slash-found_behind :
    (name s after : Bytes)
    → IsPlain name
    → strstr s double_slash ≡ some ([], after)
    → strstr (b'/' ∷ (name ++ s)) double_slash ≡ some (b'/' ∷ name, after)
unfolding strstr
double_slash-found_behind [] s after h e = absurd (h.1 refl)
double_slash-found_behind (c ∷ name) s after h e =
    let skip = strstr-skip_some (c ∷ name) s (b'/' ∷ []) [] after h.0 e in
    ground (arith, append-nil name)

remove_all_once :
    (fuel : ℕ) (needle path before after : Bytes)
    → strstr path needle ≡ some (before, after)
    → strstr (before ++ after) needle ≡ none
    → 0 < fuel
    → remove_all fuel needle path ≡ before ++ after
unfolding remove_all
remove_all_once zero needle path before after found done h = absurd (omega arith)
remove_all_once (suc fuel) needle path before after found done h =
    ground (arith, remove_all-absent fuel needle (before ++ after))

IsPlain-append : (a b : Bytes) → IsPlain a → IsPlain b → IsPlain (a ++ b)
IsPlain-append [] b ha hb = hb
IsPlain-append (c ∷ a) b ha hb =
    ((ha.0.0, All-append (λ c. (c ≢ b'/') × (c ≢ b'.')) a b ha.0.1 hb.0), λ e. cc)

double_slash_here : (s : Bytes) → strstr (double_slash ++ s) double_slash ≡ some ([], s)
unfolding strstr
double_slash_here s = refl

parent-behind_slashes :
    (name s : Bytes)
    → IsPlain name
    → strstr (b'/' ∷ s) parent_segment ≡ none
    → strstr (b'/' ∷ (name ++ (double_slash ++ s))) parent_segment ≡ none
parent-behind_slashes name s h e =
    parent-behind_name name (double_slash ++ s) h (unfold strstr in ground arith)

-- For names `a` and `b` that are not empty and hold neither slash nor dot, and `/rest` clean,
-- `/a//b/rest` becomes `/ab/rest`: two names are joined into one.
pub clean_path-joins :
    (a b rest : Bytes)
    → IsPlain a
    → IsPlain b
    → IsClean (b'/' ∷ rest)
    → clean_path (b'/' ∷ (a ++ (double_slash ++ (b ++ (b'/' ∷ rest)))))
      ≡ b'/' ∷ (a ++ (b ++ (b'/' ∷ rest)))
unfolding clean_path
clean_path-joins a b rest ha hb (p, d) =
    let tail = b ++ (b'/' ∷ rest) in
    let path = b'/' ∷ (a ++ (double_slash ++ tail)) in
    let behind = strstr-absent (b'/' ∷ rest) parent_segment p in
    let no_parent =
      parent-behind_slashes a tail ha (parent-behind_name b (b'/' ∷ rest) hb behind) in
    let single =
      strstr-skip_none b (b'/' ∷ rest) (b'/' ∷ []) hb.0
        (strstr-absent (b'/' ∷ rest) double_slash d) in
    rw (remove_all-absent (length path) parent_segment path no_parent) (
      remove_all_once (length path) double_slash path (b'/' ∷ a) tail
        (double_slash-found_behind a (double_slash ++ tail) tail ha (double_slash_here tail))
        (double_slash-behind_name a tail ha single) (omega arith))

double_slash-behind_dot :
    (s : Bytes) → strstr (codes "/.//./" ++ s) double_slash ≡ some (codes "/.", codes "./" ++ s)
unfolding strstr
double_slash-behind_dot s = refl

strstr-cons_some :
    (name s before after : Bytes)
    → IsPlain name
    → strstr s double_slash ≡ some (b'/' ∷ before, after)
    → strstr (b'/' ∷ (name ++ s)) double_slash ≡ some (b'/' ∷ (name ++ (b'/' ∷ before)), after)
unfolding strstr
strstr-cons_some [] s before after h e = absurd (h.1 refl)
strstr-cons_some (c ∷ name) s before after h e =
    let skip = strstr-skip_some (c ∷ name) s (b'/' ∷ []) (b'/' ∷ before) after h.0 e in ground arith

dots_absent :
    (rest : Bytes)
    → strstr (b'/' ∷ rest) parent_segment ≡ none
    → strstr (codes "/.//./" ++ rest) parent_segment ≡ none
unfolding strstr
dots_absent rest e = ground arith

up_absent :
    (rest : Bytes)
    → strstr (b'/' ∷ rest) double_slash ≡ none
    → strstr (codes "/../" ++ rest) double_slash ≡ none
unfolding strstr
up_absent rest e = ground arith

-- For a name that is not empty and holds neither slash nor dot, and `/rest` clean,
-- `/name/.//./rest` becomes `/name/../rest`.
pub clean_path-climbs_below :
    (name rest : Bytes)
    → IsPlain name
    → IsClean (b'/' ∷ rest)
    → clean_path (b'/' ∷ (name ++ (codes "/.//./" ++ rest)))
      ≡ b'/' ∷ (name ++ (codes "/../" ++ rest))
unfolding clean_path
clean_path-climbs_below name rest h (p, d) =
    let path = b'/' ∷ (name ++ (codes "/.//./" ++ rest)) in
    let up = codes "/../" ++ rest in
    let no_parent =
      parent-behind_name name (codes "/.//./" ++ rest) h
        (dots_absent rest (strstr-absent (b'/' ∷ rest) parent_segment p)) in
    let single =
      double_slash-behind_name name up h
        (up_absent rest (strstr-absent (b'/' ∷ rest) double_slash d)) in
    let found =
      strstr-cons_some name (codes "/.//./" ++ rest) (b'.' ∷ []) (codes "./" ++ rest) h
        (double_slash-behind_dot rest) in
    let joined = append_assoc name (codes "/.") (codes "./" ++ rest) in
    rw (remove_all-absent (length path) parent_segment path no_parent) (
      remove_all_once (length path) double_slash path (b'/' ∷ (name ++ codes "/."))
        (codes "./" ++ rest) found (rw joined single) (omega arith)
      ∙ ap (◌∷◌ b'/') joined)

first_segment_cut :
    (rest : Bytes)
    → remove_all (length (parent_segment ++ rest)) parent_segment (parent_segment ++ rest)
      ≡ remove_all (suc (suc (length rest))) parent_segment rest
unfolding remove_all strstr
first_segment_cut rest = refl

clean_path-parent : (rest : Bytes) → IsClean rest → clean_path (parent_segment ++ rest) ≡ rest
unfolding clean_path
clean_path-parent rest (p, d) =
    let first =
      first_segment_cut rest
      ∙ remove_all-absent (suc (suc (length rest))) parent_segment rest
          (strstr-absent rest parent_segment p) in
    ap (λ path. remove_all (length path) double_slash path) first
    ∙ remove_all-absent (length rest) double_slash rest (strstr-absent rest double_slash d)

pub append-cancel : (a s t : Bytes) → a ++ s ≡ a ++ t → s ≡ t
append-cancel [] s t e = e
append-cancel (c ∷ a) s t e = append-cancel a s t (ground arith)

-- For `rest` clean, not empty and without a slash in front, the path `/..rest` loses its first slash: its
-- disk path is the storage root with `rest` behind the name of its last directory, and so neither the
-- storage root nor a path that continues it with a slash.
pub make_disk_path-leaves_root :
    (serve_root user : Bytes) (c : ℕ) (rest : Bytes)
    → IsClean (c ∷ rest)
    → c ≢ b'/'
    → let disk = make_disk_path serve_root user (parent_segment ++ (c ∷ rest)) in
      (disk.disk_path ≡ disk.storage_root ++ (c ∷ rest))
      × (disk.disk_path ≢ disk.storage_root)
      × ((below : Bytes) → disk.disk_path ≢ disk.storage_root ++ (b'/' ∷ below))
unfolding make_disk_path
make_disk_path-leaves_root serve_root user c rest clean no_slash =
    let root = codes "/home/" ++ (user ++ (b'/' ∷ serve_root)) in
    let disk : root ++ clean_path (parent_segment ++ (c ∷ rest)) ≡ root ++ (c ∷ rest) =
      ap (λ path. root ++ path) (clean_path-parent (c ∷ rest) clean) in
    (
      disk,
      λ e.
          let nothing = append-cancel root (c ∷ rest) [] (sym disk ∙ e ∙ sym (append-nil root)) in
          cc,
      λ below e.
          let same = append-cancel root (c ∷ rest) (b'/' ∷ below) (sym disk ∙ e) in
          no_slash (ground arith),
    )
