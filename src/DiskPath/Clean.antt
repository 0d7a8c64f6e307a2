-- ===== src/DiskPath/Clean.antt =====
-- The two loops of `make_disk_path` of src/handler/storage.c.
use rs_serve.Base.{
  ℕ, zero, suc, ◌≤◌, ◌<◌, ◌≡◌, refl, ap, inl, inr, none, some, [], ◌∷◌, ◌++◌, arith, Bytes, length,
  length-append, Option-cases,
}
use rs_serve.CString.{strstr}
use rs_serve.CString.Laws.{Occurs, strstr-none, strstr-eq_some, strstr-some-Occurs}
use rs_serve.DiskPath.{remove_all, parent_segment, double_slash, clean_path}

not-Occurs-nil : (needle : Bytes) → 0 < length needle → ¬ Occurs needle []
not-Occurs-nil needle n o = omega (
  arith,
  ap length o.splits,
  length-append o.before (needle ++ o.after),
  length-append needle o.after,
)

-- A round shortens the path.
shortens :
    (needle path before after : Bytes)
    → 0 < length needle
    → path ≡ before ++ (needle ++ after)
    → length (before ++ after) < length path
shortens needle path before after n e = omega (
  arith,
  ap length e,
  length-append before (needle ++ after),
  length-append needle after,
  length-append before after,
)

pub remove_all-absent :
    (fuel : ℕ) (needle path : Bytes)
    → strstr path needle ≡ none
    → remove_all fuel needle path ≡ path
unfolding remove_all
remove_all-absent zero needle path e = refl
remove_all-absent (suc fuel) needle path e = ground arith

remove_all-found :
    (fuel : ℕ) (needle path before after : Bytes)
    → strstr path needle ≡ some (before, after)
    → remove_all (suc fuel) needle path ≡ remove_all fuel needle (before ++ after)
unfolding remove_all
remove_all-found fuel needle path before after e = ground arith

-- With a needle that is not empty and at least the length of the path as fuel, no occurrence of the
-- needle is left: the loop ends by its test.
pub remove_all_done :
    (fuel : ℕ) (needle path : Bytes)
    → 0 < length needle
    → length path ≤ fuel
    → ¬ Occurs needle (remove_all fuel needle path)
remove_all_done zero needle [] n h o = not-Occurs-nil needle n (unfold remove_all in o)
remove_all_done zero needle (c ∷ path) n h o = absurd (omega arith)
remove_all_done (suc fuel) needle path n h o = elim (Option-cases (strstr path needle)) [
  | inl e ↦ strstr-none path needle e (rw (remove_all-absent (suc fuel) needle path e) at o)
  | inr ((before, after), e) ↦
      let short = shortens needle path before after n (strstr-eq_some path needle before after e) in
      remove_all_done fuel needle (before ++ after) n (omega arith)
        (rw (remove_all-found fuel needle path before after e) at o)
]

-- A predicate that survives one removal survives the loop.
module _ (P : Bytes → Type 0) (needle : Bytes)
    (keep : (before after : Bytes) → P (before ++ (needle ++ after)) → P (before ++ after)) where
  remove_all-keeps : (fuel : ℕ) (path : Bytes) → P path → P (remove_all fuel needle path)
  remove_all-keeps zero path p = unfold remove_all in p
  remove_all-keeps (suc fuel) path p = elim (Option-cases (strstr path needle)) [
    | inl e ↦ rw (remove_all-absent (suc fuel) needle path e) p
    | inr ((before, after), e) ↦ rw (remove_all-found fuel needle path before after e) (
        remove_all-keeps fuel (before ++ after)
          (keep before after (rw (strstr-eq_some path needle before after e) at p)))
  ]

Occurs-cons : {needle path : Bytes} (c : ℕ) → Occurs needle path → Occurs needle (c ∷ path)
Occurs-cons c o = record { before = c ∷ o.before; after = o.after; splits = ap (◌∷◌ c) o.splits }

-- Cutting a `/..` out of a path makes no `//` that was not there.
double_slash-join :
    (u v before after : Bytes)
    → u ++ v ≡ before ++ (double_slash ++ after)
    → Occurs double_slash (u ++ (parent_segment ++ v))
double_slash-join [] v before after e = record {
  before = parent_segment ++ before;
  after = after;
  splits = ap (◌++◌ parent_segment) e;
}
double_slash-join (c ∷ []) v [] after e = record {
  before = [];
  after = b'.' ∷ b'.' ∷ v;
  splits = ground arith;
}
double_slash-join (c ∷ d ∷ u) v [] after e = record {
  before = [];
  after = u ++ (parent_segment ++ v);
  splits = ground arith;
}
double_slash-join (c ∷ u) v (b ∷ before) after e =
    Occurs-cons c (double_slash-join u v before after (ground arith))

abbrev pub IsClean : Bytes → Type 0
IsClean path = (¬ Occurs parent_segment path) × (¬ Occurs double_slash path)

pub strstr-absent : (path needle : Bytes) → ¬ Occurs needle path → strstr path needle ≡ none
strstr-absent path needle h = elim (Option-cases (strstr path needle)) [
  | inl e ↦ e
  | inr ((before, after), e) ↦ absurd (h (strstr-some-Occurs path needle before after e))
]

-- No path keeps two slashes in a row.
pub clean_path-no_double_slash : (path : Bytes) → ¬ Occurs double_slash (clean_path path)
unfolding clean_path
clean_path-no_double_slash path =
    let first = remove_all (length path) parent_segment path in
    remove_all_done (length first) double_slash first (omega arith) (omega arith)

-- A path without `//` is sanitised: the result has neither `/..` nor `//`.
pub clean_path-IsClean : (path : Bytes) → ¬ Occurs double_slash path → IsClean (clean_path path)
unfolding clean_path
clean_path-IsClean path h =
    let first = remove_all (length path) parent_segment path in
    let single : ¬ Occurs double_slash first =
      remove_all-keeps (λ p. ¬ Occurs double_slash p) parent_segment
        (λ u v k o. k (double_slash-join u v o.before o.after o.splits)) (length path) path h in
    rw
      (remove_all-absent (length first) double_slash first
        (strstr-absent first double_slash single))
      (remove_all_done (length path) parent_segment path (omega arith) (omega arith), single)

-- A path with neither `/..` nor `//` is left alone.
pub clean_path-id : (path : Bytes) → IsClean path → clean_path path ≡ path
unfolding clean_path
clean_path-id path (p, d) =
    rw (remove_all-absent (length path) parent_segment path (strstr-absent path parent_segment p))
      (remove_all-absent (length path) double_slash path (strstr-absent path double_slash d))
