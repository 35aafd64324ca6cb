-- ===== src/Stores.antt =====
-- src/contracts, src/types/artifact.ts and src/types/index-record.ts: what the kernel calls. The kernel
-- takes any adapter, so the operations of the stores are fields of a record over a state of theirs,
-- together with those of node:crypto, node:fs and the clock.
use db_cluster.Prelude.{ℕ, String, Bool, Option, List}
use db_cluster.Json.{Value, Fields}
use db_cluster.Errors.{Result}
use db_cluster.Canonical.{Entity}
use db_cluster.Ledger.{EventInput, ReceiptInput, LedgerFilter, ReceiptFilter}
use db_cluster.Ledger.Types.{Event, Receipt}

-- `Artifact`; its owner is always `artifact`
pub record Artifact : Type 0 where
  pub id : String
  pub filename : String
  pub content_hash : String
  pub mime_type : String
  pub size_bytes : ℕ
  pub version : ℕ
  pub storage_path : String
  pub ingested_at : String

-- what `index` and `replaceAll` take
pub record IndexInput : Type 0 where
  pub source_id : String
  pub source_store : String
  pub text : String
  pub metadata : Fields

-- `IndexRecord`; the embedding is not read by the kernel
pub record IndexRecord : Type 0 where
  pub id : String
  pub source_id : String
  pub source_store : String
  pub text : String
  pub metadata : Fields
  pub indexed_at : String

-- `IndexQuery`, as the reads of the kernel fill it
pub record IndexQuery : Type 0 where
  pub query_text : Option String
  pub limit : Option ℕ
  pub offset : Option ℕ

-- a call that may throw and may change the state of the stores, also where it throws
abbrev pub Call : Type 0 → Type 0 → Type 0
Call W A = W → Result A × W

pub record Host (W : Type 0) : Type 0 where
  -- `new Date().toISOString()` and `randomUUID()`
  pub now : W → String × W
  pub random_uuid : W → String × W
  -- `createHash('sha256').update(bytes).digest('hex')`
  pub sha256 : List ℕ → String
  -- `String(value)` of a value that is no string
  pub to_text : Option Value → String
  -- `raw.replace(PATH_REGEX, '<path>')`, and `name` of an error of a store by its message
  pub scrub_paths : String → String
  pub name_of : String → String
  -- the directory `pending-content`, where a file is named by the hash of its bytes
  pub staging_path : String → String
  pub write_staged : String → List ℕ → Call W (Unit {0})
  pub read_staged : String → Call W (Option (List ℕ))
  pub remove_staged : String → Call W (Unit {0})
  -- `CanonicalStore`
  pub canonical_get : String → Call W (Option Entity)
  pub canonical_list : Call W (List Entity)
  pub canonical_exists : String → Call W Bool
  pub canonical_create : (kind name : String) (attributes : Value) → Call W Entity
  pub canonical_update : String → (name : Option String) (attributes : Option Value) → Call W Entity
  pub canonical_versions : String → Call W (List Entity)
  pub canonical_version : String → ℕ → Call W (Option Entity)
  -- `ArtifactStore`
  pub artifact_get : String → Call W (Option Artifact)
  pub artifact_versions : String → Call W (List Artifact)
  pub artifact_list : Call W (List Artifact)
  pub artifact_exists : String → Call W Bool
  pub artifact_ingest :
      (filename : Option Value) (content : Value) (mime_type : Option Value) → Call W Artifact
  -- `IndexStore`; `search` by metadata is what the writes use, the other one what the reads use
  pub index_get : String → Call W (Option IndexRecord)
  pub index_count : Call W ℕ
  pub index_query : IndexQuery → Call W (List IndexRecord)
  pub index_search : (text : String) → Fields → Call W (List IndexRecord)
  pub index_add : IndexInput → Call W IndexRecord
  pub index_remove : String → Call W (Unit {0})
  pub index_replace_all : List IndexInput → Call W (Unit {0})
  -- `LedgerStore`
  pub ledger_append : EventInput → Call W Event
  pub ledger_append_receipt : ReceiptInput → Call W Receipt
  pub ledger_list_events : LedgerFilter → Call W (List Event)
  pub ledger_get_event : String → Call W (Option Event)
  pub ledger_list_receipts : ReceiptFilter → Call W (List Receipt)
  pub ledger_trace : String → Call W (List Event)
