-- ===== src/Auth/Handle.antt =====
-- The handle `auth_db` of src/common/auth.c, and how its users open and close it: src/tools, the server
-- and auth/bindings/auth.cc.
use rs_serve.Base.{
  Bool, Option, none, some, List, [], ◌∷◌, ◌++◌, ◌≡◌, refl, ◌≢◌, if◌then◌else◌, if-both, ◌⊎◌, inl,
  inr,
}

-- NULL, or an open database.
pub data Handle : Type 0 where
  closed opened : Handle

-- The calls of Berkeley DB in open_authorizations, `true` for 0.
pub record Opening : Type 0 where
  pub creates_env : Bool
  pub opens_env : Bool
  pub creates_db : Bool
  pub opens_db : Bool

-- none: abort(). The mode is not looked at.
unfoldable pub open_authorizations : Opening → Handle → Option Handle
open_authorizations o opened = some opened
open_authorizations o closed =
    if o.creates_env
    then if o.opens_env
      then if o.creates_db then if o.opens_db then some opened else none else none
      else none
    else none

unfoldable pub close_authorizations : Handle → Handle
close_authorizations auth_db = closed

-- What a caller does: `uses` is a call of the store, which reads `auth_db`.
pub data Action : Type 0 where
  opens : Opening → Action
  uses : Action
  closes : Action

pub data Outcome : Type 0 where
  leaves : Handle → Outcome
  aborts : Outcome
  null_read : Outcome

abbrev pub after_open : Option Handle → (Handle → Outcome) → Outcome
after_open none next = aborts
after_open (some h) next = next h

unfoldable pub act : List Action → Handle → Outcome
unfolding open_authorizations close_authorizations
act [] h = leaves h
act (opens o ∷ actions) h = after_open (open_authorizations o h) (act actions)
act (uses ∷ actions) closed = null_read
act (uses ∷ actions) opened = act actions opened
act (closes ∷ actions) h = act actions (close_authorizations h)

-- One call: of a tool or of Add, Remove or List, which close the database, or of the server's start or of
-- Lookup, which do not.
pub data Session : Type 0 where
  closing : Opening → Session
  leaving : Opening → Session

abbrev pub actions_of : Session → List Action
actions_of (closing o) = opens o ∷ uses ∷ closes ∷ []
actions_of (leaving o) = opens o ∷ uses ∷ []

abbrev pub all_actions : List Session → List Action
all_actions [] = []
all_actions (s ∷ sessions) = actions_of s ++ all_actions sessions

abbrev AbortsOrOpens : Option Handle → Type 0
AbortsOrOpens r = (r ≡ none) ⊎ (r ≡ some opened)

open-AbortsOrOpens : (o : Opening) (h : Handle) → AbortsOrOpens (open_authorizations o h)
unfolding open_authorizations
open-AbortsOrOpens o opened = inr refl
open-AbortsOrOpens o closed =
    if-both AbortsOrOpens o.creates_env _ none
      (if-both AbortsOrOpens o.opens_env _ none
        (if-both AbortsOrOpens o.creates_db _ none
          (if-both AbortsOrOpens o.opens_db (some opened) none (inr refl) (inl refl)) (inl refl))
        (inl refl))
      (inl refl)

-- Calls in any order, from any handle, never read a NULL handle: they abort, or leave a handle.
pub act-not_null : (sessions : List Session) (h : Handle) → act (all_actions sessions) h ≢ null_read
unfolding act close_authorizations
act-not_null [] h e = cc
act-not_null (closing o ∷ sessions) h e = elim (open-AbortsOrOpens o h) [
  | inl aborted ↦ let e' = rw aborted at e in cc
  | inr done ↦ act-not_null sessions closed (rw done at e)
]
act-not_null (leaving o ∷ sessions) h e = elim (open-AbortsOrOpens o h) [
  | inl aborted ↦ let e' = rw aborted at e in cc
  | inr done ↦ act-not_null sessions opened (rw done at e)
]
