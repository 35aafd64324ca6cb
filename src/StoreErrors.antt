-- ===== src/StoreErrors.antt =====
-- src/adapters/local/errors.ts: what the local stores throw, and the comparison of a record that is
-- imported with the one that is there.
use db_cluster.Prelude.{String, List, ◌==◌, if◌then◌else◌}

-- What an operation of a store throws.
pub data StoreError : Type 0 where
  entity_not_found : String → StoreError
  import_conflict : (store_kind record_id existing_json incoming_json : String) → StoreError
  corrupt_store : (path cause : String) → StoreError
  ledger_cycle_detected : List String → StoreError
  ledger_integrity : (record_kind record_id stored_hash recomputed_hash : String) → StoreError
  invalid_rotate_timestamp : String → StoreError
  rotate_boundary_in_future : (before_timestamp now_iso : String) → StoreError
  invalid_content_hash : String → StoreError
  content_read_integrity : (artifact_id expected_hash actual_hash : String) → StoreError
  write_failed : String → StoreError

pub data Reply {ℓ} (A : Type ℓ) : Type ℓ where
  throw : StoreError → Reply A
  return : A → Reply A

-- `assertContentMatch`, and the record that is there; `json` is `JSON.stringify` of a record without its
-- owner
unfoldable pub assert_content_match {ℓ} :
    {A : Type ℓ} (json : A → String) (store_kind record_id : String) (existing incoming : A)
    → Reply A
assert_content_match json store_kind record_id existing incoming =
    if json existing == json incoming
    then return existing
    else throw (import_conflict store_kind record_id (json existing) (json incoming))
