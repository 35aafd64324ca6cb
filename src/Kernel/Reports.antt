-- ===== src/Kernel/Reports.antt =====
-- The reports of src/kernel/cluster-kernel.ts on the index: the records of `indexStatus`, `explainIndex`
-- and `listStaleRecords`, and what their branches make of what a store holds.
use db_cluster.Prelude.{
  ℕ, suc, String, Bool, true, false, Option, none, some, List, [], ◌∷◌, ◌==◌, if◌then◌else◌,
}
use db_cluster.Json.{template}
use db_cluster.Canonical.{Entity}
use db_cluster.Ledger.Types.{Event}
use db_cluster.Stores.{Artifact, IndexRecord}

-- `IndexStatusResult`, the counts by store in the order of the first record
pub record IndexStatus : Type 0 where
  pub total : ℕ
  pub by_store : List (String × ℕ)
  pub expected_total : ℕ
  pub possibly_stale : Bool

-- `Entity | Artifact | ProvenanceEvent | null`
pub data Source : Type 0 where
  absent : Source
  entity : Entity → Source
  artifact : Artifact → Source
  event : Event → Source

-- `IndexExplanation`
pub record IndexExplanation : Type 0 where
  pub index_record_id : String
  pub source_id : String
  pub source_store : String
  pub indexed_at : String
  pub text : String
  pub source_exists : Bool
  pub source_object : Source
  pub stale : Bool
  pub stale_cause : Option String

-- `StaleRecord`
pub record StaleRecord : Type 0 where
  pub index_record_id : String
  pub source_id : String
  pub source_store : String
  pub cause : String

-- `byStore[store] = (byStore[store] ?? 0) + 1`
unfoldable pub count_store : String → List (String × ℕ) → List (String × ℕ)
count_store store [] = (store, 1) ∷ []
count_store store ((key, n) ∷ rest) =
    let later = count_store store rest in
    if key == store then (key, suc n) ∷ rest else (key, n) ∷ later

unfoldable pub count_stores : List IndexRecord → List (String × ℕ) → List (String × ℕ)
unfolding count_store
count_stores [] counts = counts
count_stores (r ∷ rs) counts = count_stores rs (count_store r.source_store counts)

-- the text that an index record of the entity has
abbrev pub expected_text : Entity → String
expected_text e = template (e.kind ∷ ": " ∷ e.name ∷ [])

abbrev exists_source : Source → Bool
exists_source absent = false
exists_source _ = true

abbrev pub explained : IndexRecord → Source → Option String → IndexExplanation
explained r source cause = record {
  index_record_id = r.id;
  source_id = r.source_id;
  source_store = r.source_store;
  indexed_at = r.indexed_at;
  text = r.text;
  source_exists = exists_source source;
  source_object = source;
  stale = elim cause [ none ↦ false | some text ↦ true ];
  stale_cause = cause;
}

abbrev lost : String → String → Option String
lost kind id = some (template ("Source " ∷ kind ∷ " " ∷ id ∷ " no longer exists" ∷ []))

-- the branches of `explainIndex`
unfoldable pub explain_canonical : IndexRecord → Option Entity → IndexExplanation
explain_canonical r none = explained r absent (lost "entity" r.source_id)
explain_canonical r (some e) = explained r (entity e) (
    if r.text == expected_text e
    then none
    else some (
        template (
          "Index text \""
          ∷ r.text
          ∷ "\" does not match current entity \""
          ∷ expected_text e
          ∷ "\""
          ∷ [])))

unfoldable pub explain_artifact : IndexRecord → Option Artifact → IndexExplanation
explain_artifact r none = explained r absent (lost "artifact" r.source_id)
explain_artifact r (some a) = explained r (artifact a) none

unfoldable pub explain_ledger : IndexRecord → Option Event → IndexExplanation
explain_ledger r none = explained r absent (lost "event" r.source_id)
explain_ledger r (some e) = explained r (event e) none

abbrev stale_record : IndexRecord → String → List StaleRecord
stale_record r cause =
    record {
      index_record_id = r.id;
      source_id = r.source_id;
      source_store = r.source_store;
      cause = cause;
    }
    ∷ []

-- the branches of `listStaleRecords`
unfoldable pub stale_canonical : IndexRecord → Option Entity → List StaleRecord
stale_canonical r none = stale_record r "Source entity deleted"
stale_canonical r (some e) =
    if r.text == expected_text e
    then []
    else stale_record r "Index text does not match current entity state"

unfoldable pub stale_without : {A : Type 0} → IndexRecord → String → Option A → List StaleRecord
stale_without r cause none = stale_record r cause
stale_without r cause (some a) = []
