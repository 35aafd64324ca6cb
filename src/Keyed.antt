-- ===== src/Keyed.antt =====
-- src/adapters/local/local-artifact-store.ts and local-index-store.ts: what both do to the map of their
-- records by id and to the file that holds it. `Map` is the list of its values in the order of insertion,
-- as the id of a record is always its key.
pub mod Laws
pub use db_cluster.StoreErrors.{
  StoreError, corrupt_store, write_failed, invalid_content_hash, content_read_integrity, Reply,
  throw, return, assert_content_match,
}
use db_cluster.Prelude.{
  ℕ, ◌+◌, String, Bool, not, Option, none, some, List, [], ◌∷◌, ◌==◌, filter, map, if◌then◌else◌,
}

-- What `readFileSync` and `JSON.parse` make of the file.
pub data File (A : Type 0) : Type 0 where
  missing : File A
  corrupt : String → File A
  stored : List A → File A

-- The map in memory, the file, and for each write to come the message with which it fails, if it does.
pub record Table (A : Type 0) : Type 0 where
  pub rows : List A
  pub file_path : String
  pub file : File A
  pub writes : ℕ
  pub write_error : ℕ → Option String

module _ {A : Type 0} (key : A → String) where
  -- `map.get(id)`
  unfoldable pub find_row : List A → String → Option A
  find_row [] id = none
  find_row (x ∷ xs) id = if key x == id then some x else find_row xs id

  -- `map.set(x.id, x)`: a key that is there keeps its place
  unfoldable pub set_row : List A → A → List A
  set_row [] x = x ∷ []
  set_row (y ∷ ys) x = let rest = set_row ys x in if key y == key x then x ∷ ys else y ∷ rest

  -- `map.delete(id)`
  unfoldable pub delete_row : List A → String → List A
  delete_row xs id = filter (λ (x : A). not (key x == id)) xs

  -- `new Map(xs.map((x) => [x.id, x]))`, from the entries that are there
  unfoldable pub rows_of : List A → List A → List A
  unfolding set_row
  rows_of done [] = done
  rows_of done (x ∷ xs) = rows_of (set_row done x) xs

  -- `load`
  unfoldable pub load_rows : (path : String) → File A → Reply (List A)
  unfolding rows_of
  load_rows path missing = return []
  load_rows path (corrupt cause) = throw (corrupt_store path cause)
  load_rows path (stored xs) = return (rows_of [] xs)

-- `writeFileSync` to a temporary file and `renameSync` over the target: `done` is what the second changes
unfoldable pub replace_file {ℓ} :
    {A : Type 0} {R : Type ℓ} → R → (Table A → Table A) → Table A → Reply R × Table A
replace_file result done t = elim (t.write_error t.writes) [
  | some text ↦ (throw (write_failed text), record t { writes = t.writes + 1 })
  | none ↦ elim (t.write_error (t.writes + 1)) [
    | some text ↦ (throw (write_failed text), record t { writes = t.writes + 2 })
    | none ↦ (return result, done (record t { writes = t.writes + 2 }))
  ]
]

-- `persist`; `reload` is what `JSON.stringify` and `JSON.parse` make of a row
unfoldable pub persist_rows {ℓ} :
    {A : Type 0} {R : Type ℓ} (reload : A → A) → R → Table A → Reply R × Table A
unfolding replace_file
persist_rows {A} reload result t =
    replace_file result (λ (u : Table A). record u { file = stored (map reload u.rows) }) t
