-- ===== src/Auth/Database.antt =====
-- Berkeley DB, which the program calls: the operations on an open hash database, and what its
-- manual promises of them. `InMemory` is a database that keeps the promises.
pub mod InMemory
use rs_serve.Base.{ℕ, ◌≡◌, ◌≢◌, Option, none, some, List, ◌∷◌, Bytes, Bool, if◌then◌else◌}
use rs_serve.CString.{str_eq}

-- The return value of `get`, `put`, `del` and `cursor`.
pub data Outcome {ℓ} (A : Type ℓ) : Type ℓ where
  done : A → Outcome A
  not_found : Outcome A
  failed : ℕ → Outcome A

pub record Database : Type 1 where
  pub Db : Type 0
  pub get : Db → Bytes → Outcome Bytes
  -- `put` and `del` return the database with 0 or an error
  pub put : Db → Bytes → Bytes → Db × Outcome (Unit {0})
  pub del : Db → Bytes → Db × Outcome (Unit {0})
  -- the values that a new cursor yields from DB_FIRST to DB_NOTFOUND
  pub walk : Db → Outcome (List Bytes)

-- A `put` or a `del` that returns 0 has the documented effect on its key and on no other.
pub record IsDatabase (D : Database) : Type 0 where
  pub get-put :
      (db : D.Db) (k v j : Bytes)
      → (D.put db k v).1 ≡ done tt
      → D.get (D.put db k v).0 j ≡ (if str_eq k j then done v else D.get db j)
  pub get-del :
      (db : D.Db) (k j : Bytes)
      → (D.del db k).1 ≡ done tt
      → D.get (D.del db k).0 j ≡ (if str_eq k j then not_found else D.get db j)
  -- an error leaves the database as it was
  pub put-failed : (db : D.Db) (k v : Bytes) → (D.put db k v).1 ≢ done tt → (D.put db k v).0 ≡ db
  pub del-failed : (db : D.Db) (k : Bytes) → (D.del db k).1 ≢ done tt → (D.del db k).0 ≡ db
