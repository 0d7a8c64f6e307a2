-- ===== src/Auth/Database/InMemory.antt =====
-- A database as an association list, at which the theorems are applied.
use rs_serve.Base.{◌≡◌, refl, List, [], ◌∷◌, map, Bytes, arith, if◌then◌else◌}
use rs_serve.CString.{str_eq}
use rs_serve.CString.Laws.{str_eq_iff}
use rs_serve.Auth.Database.{Outcome, done, not_found, failed, Database, IsDatabase}

abbrev Table : Type 0
Table = List (Bytes × Bytes)

unfoldable pub find : Table → Bytes → Outcome Bytes
find [] k = not_found
find ((j, v) ∷ t) k = if str_eq j k then done v else find t k

unfoldable pub without : Table → Bytes → Table
without [] k = []
without ((j, v) ∷ t) k = let rest = without t k in if str_eq j k then rest else (j, v) ∷ rest

unfoldable pub delete : Table → Bytes → Table × Outcome (Unit {0})
unfolding find without
delete t k = elim (find t k) [
  | done v ↦ (without t k, done tt)
  | not_found ↦ (t, not_found)
  | failed c ↦ (t, failed c)
]

abbrev pub in_memory : Database
in_memory = record {
  Db = Table;
  get = find;
  put = λ t k v. ((k, v) ∷ without t k, done tt);
  del = delete;
  walk = λ t. done (map (λ (_, v). v) t);
}

find-without :
    (t : Table) (k j : Bytes) → find (without t k) j ≡ (if str_eq k j then not_found else find t j)
unfolding find without
find-without [] k j = ground arith
find-without ((i, v) ∷ t) k j =
    ground (arith, str_eq_iff i k, str_eq_iff i j, str_eq_iff k j, find-without t k j)

pub in_memory-IsDatabase : IsDatabase in_memory
unfolding find without delete
in_memory-IsDatabase = record {
  get-put = λ t k v j e. ground (arith, find-without t k j);
  get-del = λ t k j e. ground (arith, find-without t k j);
  put-failed = λ t k v e. absurd (e refl);
  del-failed = λ t k e. ground arith;
}
