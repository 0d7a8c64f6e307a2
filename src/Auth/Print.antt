-- ===== src/Auth/Print.antt =====
-- print_authorization and print_authorizations of src/common/auth.c: what they write to stdout.
pub mod Listing
use rs_serve.Base.{
  ℕ, zero, suc, ◌+◌, Option, none, some, List, [], ◌∷◌, ◌++◌, Bytes, Bool, true, false, codes, ◌==◌,
  if◌then◌else◌, not,
}
use rs_serve.CString.{str_eq}
use rs_serve.Auth.{Scope, Authorization}
use rs_serve.Auth.Codec.{unpack_authorization}
use rs_serve.Auth.Store.{Lookup, found, unpack_unchecked, is_listed}
use rs_serve.Auth.Database.{done, not_found, failed, Database}

-- scope->write ? "rw" : "r"
unfoldable pub mode_text : Scope → Bytes
mode_text s = if s.write == 0 then codes "r" else codes "rw"

unfoldable pub print_scopes : ℕ → List Scope → Bytes
unfolding mode_text
print_scopes i [] = []
print_scopes i (s ∷ scopes) =
    (if i == 0 then [] else codes ",")
    ++ (codes "\n    \""
        ++ (s.name ++ (codes "\": \"" ++ (mode_text s ++ (b'"' ∷ print_scopes (suc i) scopes)))))

unfoldable pub print_authorization : Authorization → Bytes
unfolding print_scopes
print_authorization auth =
    codes "{\n  \"user\": \""
    ++ (auth.username
        ++ (codes "\",\n  \"token\": \""
            ++ (auth.token
                ++ (codes "\",\n  \"scopes\": {"
                    ++ (print_scopes 0 auth.scopes ++ codes "\n  }\n}")))))

-- What print_authorizations writes. `exits` stands for its exit() and abort(), `garbage` for a record
-- that does not unpack, whose unset fields are then read.
pub data Printed : Type 0 where
  printed : Bytes → Printed
  exits : Printed
  garbage : Printed

abbrev pub after_text : Bytes → Printed → Printed
after_text text (printed rest) = printed (text ++ rest)
after_text text exits = exits
after_text text garbage = garbage

-- One turn of the loop, with what the turns after it write if this one prints or does not.
unfoldable pub print_value : Option Bytes → ℕ → Lookup → Printed → Printed → Printed
unfolding print_authorization
print_value username i (found auth) printing skipping =
    if is_listed username (found auth)
    then after_text ((if i == 0 then [] else codes ", ") ++ print_authorization auth) printing
    else skipping
print_value username i _ printing skipping = garbage

-- The loop from the record that the cursor stands on; `i` counts what is printed.
unfoldable pub print_values : Option Bytes → ℕ → List Bytes → Printed
unfolding print_value
print_values username i [] = printed (codes "]\n")
print_values username i (v ∷ values) =
    let printing = print_values username (suc i) values in
    let skipping = print_values username i values in
    print_value username i (unpack_unchecked (unpack_authorization v)) printing skipping

-- After DB_FIRST: DB_NOTFOUND returns before anything is printed.
unfoldable pub print_from_first : Option Bytes → List Bytes → Printed
unfolding print_values
print_from_first username [] = printed []
print_from_first username (v ∷ values) =
    after_text (codes "[") (print_values username 0 (v ∷ values))

unfoldable pub print_authorizations : (D : Database) → D.Db → Option Bytes → Printed
unfolding print_from_first
print_authorizations D db username = elim (D.walk db) [
  | done values ↦ print_from_first username values
  | not_found ↦ printed []
  | failed c ↦ exits
]
