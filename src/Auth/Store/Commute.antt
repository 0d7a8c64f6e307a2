-- ===== src/Auth/Store/Commute.antt =====
-- Commands on the store of src/common/auth.c that come from different processes, in either order.
use rs_serve.Base.{
  ◌≡◌, refl, inl, inr, Bool, true, false, List, [], ◌∷◌, ◌++◌, Bytes, ◌&&◌, arith, Bool-cases,
}
use rs_serve.CString.{str_eq}
use rs_serve.CString.Laws.{str_eq_iff}
use rs_serve.Auth.Database.{Database, IsDatabase}
use rs_serve.Auth.Store.{lookup_authorization}
use rs_serve.Auth.Store.Refines.{
  Tokens, Command, subject, update, updates, Steps, UserName, Refines, updates-Refines,
}

-- The command is about this user and token.
abbrev is_about : Command → Bytes → Bytes → Bool
is_about c user token = str_eq (subject c).username user && str_eq (subject c).token token

-- The same entries.
abbrev Agree : Tokens → Tokens → Type 0
Agree tokens tokens' = (user token : Bytes) → tokens user token ≡ tokens' user token

update-Agree :
    (c : Command) (tokens tokens' : Tokens)
    → Agree tokens tokens'
    → Agree (update c tokens) (update c tokens')
update-Agree c tokens tokens' h user token = rw (h user token) refl

updates-Agree :
    (commands : List Command) (tokens tokens' : Tokens)
    → Agree tokens tokens'
    → Agree (updates commands tokens) (updates commands tokens')
updates-Agree [] tokens tokens' h = h
updates-Agree (c ∷ commands) tokens tokens' h =
    updates-Agree commands (update c tokens) (update c tokens') (update-Agree c tokens tokens' h)

-- The commands are about different entries.
abbrev pub AreApart : Command → Command → Type 0
AreApart c c' = is_about c (subject c').username (subject c').token ≡ false

not_both :
    (c c' : Command) (user token : Bytes)
    → AreApart c c'
    → is_about c user token ≡ true
    → is_about c' user token ≡ false
not_both c c' user token apart h = ground (
  arith,
  apart,
  h,
  str_eq_iff (subject c).username user,
  str_eq_iff (subject c).token token,
  str_eq_iff (subject c').username user,
  str_eq_iff (subject c').token token,
  str_eq_iff (subject c).username (subject c').username,
  str_eq_iff (subject c).token (subject c').token,
)

swap-Agree :
    (c c' : Command) (tokens : Tokens)
    → AreApart c c'
    → Agree (update c' (update c tokens)) (update c (update c' tokens))
swap-Agree c c' tokens apart user token = elim (Bool-cases (is_about c user token)) [
  | inl e ↦ rw (e, not_both c c' user token apart e) refl
  | inr e ↦ rw e refl
]

updates-swap :
    (c c' : Command) (before after : List Command) (tokens : Tokens)
    → AreApart c c'
    → Agree
        (updates (before ++ (c ∷ c' ∷ after)) tokens)
        (updates (before ++ (c' ∷ c ∷ after)) tokens)
updates-swap c c' [] after tokens apart =
    updates-Agree after (update c' (update c tokens)) (update c (update c' tokens))
      (swap-Agree c c' tokens apart)
updates-swap c c' (b ∷ before) after tokens apart =
    updates-swap c c' before after (update b tokens) apart

-- When two sequences of successful calls, as in updates-Refines, start at one database that refines a
-- map, and differ only in the order of two neighbouring calls for different users or tokens, the
-- databases they end with give the same lookup for every token of every user without a bar.
pub steps-commute :
    (D : Database) (db db1 db2 : D.Db) (c c' : Command) (before after : List Command)
    (tokens : Tokens)
    → IsDatabase D
    → Refines D db tokens
    → AreApart c c'
    → Steps D db (before ++ (c ∷ c' ∷ after)) db1
    → Steps D db (before ++ (c' ∷ c ∷ after)) db2
    → (user : UserName) (token : Bytes)
    → lookup_authorization D db1 user.name token ≡ lookup_authorization D db2 user.name token
steps-commute D db db1 db2 c c' before after tokens law h apart steps1 steps2 user token =
    rw
      (
        updates-Refines D db db1 (before ++ (c ∷ c' ∷ after)) tokens law steps1 h user token,
        updates-Refines D db db2 (before ++ (c' ∷ c ∷ after)) tokens law steps2 h user token,
        updates-swap c c' before after tokens apart user.name token,
      )
      refl
