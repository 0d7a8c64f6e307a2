-- ===== src/Authorize/Bypass.antt =====
-- authorize_request of src/handler/auth.c looks at the path as it was sent, and make_disk_path of
-- src/handler/storage.c changes it afterwards.
use rs_serve.Storage.Put.{segments}
use rs_serve.CString.{str_eq}
use rs_serve.Base.{
  ◌≡◌, refl, ◌≢◌, inl, inr, none, [], ◌∷◌, ◌++◌, arith, Bytes, codes, true, false, ◌⊎◌, List, ap,
  ◌∙◌, drop, if◌then◌else◌,
}
use rs_serve.Request.{Request, is_read, is_directory, authorization}
use rs_serve.Auth.{Scope}
use rs_serve.Auth.Database.{Database}
use rs_serve.DiskPath.{double_slash, clean_path, make_disk_path}
use rs_serve.DiskPath.Clean.{IsClean}
use rs_serve.DiskPath.Traversal.{IsPlain, clean_path-climbs_below, clean_path-joins, append-cancel}
use rs_serve.Authorize.{match_scope, granted, authorize_request}
use rs_serve.Authorize.Scopes.{Covers, match_scope_iff}
use rs_serve.Authorize.Grants.{PublicRead, anonymous-granted}

public-IsPlain : IsPlain (codes "public")
public-IsPlain = (omega arith, λ e. cc)

-- How the system follows a path without links, name by name; the directories that it is in, the innermost
-- first.
abbrev pub follow : List Bytes → List Bytes → List Bytes
follow dirs [] = dirs
follow dirs (name ∷ names) =
    let up = follow (drop 1 dirs) names in
    let here = follow dirs names in
    let down = follow (name ∷ dirs) names in
    if str_eq name (codes "..") then up else if str_eq name (codes ".") then here else down

abbrev pub location : Bytes → List Bytes
location path = follow [] (segments [] path)

follows_up : (rest : Bytes) → location (codes "/public/../" ++ rest) ≡ location (b'/' ∷ rest)
unfolding segments str_eq
follows_up rest = refl

-- With no Authorization header and `/rest` clean, a GET or HEAD of the file `/public/.//./rest` is
-- granted, and is performed on `/public/../rest` in the user's storage, which leads where `/rest` leads.
pub public_read_escapes :
    (D : Database) (db : D.Db) (serve_root : Bytes) (req : Request) (rest : Bytes)
    → req.headers_in authorization ≡ none
    → req.path ≡ codes "/public/.//./" ++ rest
    → is_read req ≡ true
    → is_directory req ≡ false
    → IsClean (b'/' ∷ rest)
    → (authorize_request D db req ≡ granted)
      × ((make_disk_path serve_root req.user req.path).path ≡ codes "/public/../" ++ rest)
      × (location (make_disk_path serve_root req.user req.path).path ≡ location (b'/' ∷ rest))
unfolding make_disk_path
public_read_escapes D db serve_root req rest header path reads file clean =
    let public : PublicRead req = record {
      rest = codes ".//./" ++ rest;
      path_public = path;
      reads = reads;
      on_file = file;
    } in
    let cleaned : clean_path req.path ≡ codes "/public/../" ++ rest =
      rw path (clean_path-climbs_below (codes "public") rest public-IsPlain clean) in
    (anonymous-granted D db req header public, cleaned, ap location cleaned ∙ follows_up rest)

not-Covers-longer :
    (a b rest : Bytes) → IsPlain a → IsPlain b → ¬ Covers a (b'/' ∷ (a ++ (b ++ (b'/' ∷ rest))))
not-Covers-longer a b rest ha hb (inl e) = ha.1 e
not-Covers-longer a [] rest ha hb (inr c) = hb.1 refl
not-Covers-longer a (y ∷ b) rest ha hb (inr (first, more, e)) =
    let e' = append-cancel a ((y ∷ b) ++ (b'/' ∷ rest)) (b'/' ∷ more) (ground arith) in
    hb.0.0.0 (ground arith)

-- For plain names `a` and `b` and `/rest` clean, a scope on the directory `a` permits a read of
-- `/a//b/rest`, and a write if it has its write flag, which is then performed on `/ab/rest`, a path
-- that the scope does not cover.
pub scope_escapes :
    (scope : Scope) (serve_root : Bytes) (req : Request) (b rest : Bytes)
    → IsPlain scope.name
    → IsPlain b
    → IsClean (b'/' ∷ rest)
    → req.path ≡ b'/' ∷ (scope.name ++ (double_slash ++ (b ++ (b'/' ∷ rest))))
    → (is_read req ≡ true) ⊎ (scope.write ≢ 0)
    → (match_scope scope req ≡ true)
      × ((make_disk_path serve_root req.user req.path).path
          ≡ b'/' ∷ (scope.name ++ (b ++ (b'/' ∷ rest))))
      × (¬ Covers scope.name (make_disk_path serve_root req.user req.path).path)
unfolding make_disk_path
scope_escapes scope serve_root req b rest plain plain_b clean path mode =
    let joined : clean_path req.path ≡ b'/' ∷ (scope.name ++ (b ++ (b'/' ∷ rest))) =
      rw path (clean_path-joins scope.name b rest plain plain_b clean) in
    (
      (match_scope_iff scope req).1
          (record { covers = inr (b'/', b'/' ∷ (b ++ (b'/' ∷ rest)), path); mode = ground arith }),
      joined,
      rw joined (not-Covers-longer scope.name b rest plain plain_b),
    )
