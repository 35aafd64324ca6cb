-- ===== src/IndexStore.antt =====
-- src/adapters/local/local-index-store.ts and src/contracts/index-store.ts: the records of the index. A
-- limit and an offset are natural numbers. The embedding of a record is not read by the store.
pub mod Search
pub mod Durable
mod Examples
use db_cluster.Prelude.{
  ℕ, zero, suc, ◌+◌, String, Bool, ◌||◌, Option, none, some, List, [], ◌∷◌, ◌==◌, filter, length,
  take, drop, if◌then◌else◌,
}
use db_cluster.Json.{Value, Fields, field, end, get_field}
use db_cluster.Json.Reload.{reload_fields}
use db_cluster.Stores.{IndexInput, IndexRecord}
use db_cluster.Canonical.{contains}
use db_cluster.Keyed.{
  Table, Reply, throw, return, find_row, set_row, delete_row, rows_of, load_rows, persist_rows,
}

abbrev pub record_id : IndexRecord → String
record_id r = r.id

-- the constructor: the map is what `load` makes of the file
unfoldable pub open_index : Table IndexRecord → Reply (Table IndexRecord)
unfolding load_rows
open_index t = elim (load_rows record_id t.file_path t.file) [
  | throw e ↦ throw e
  | return rows ↦ return (record t { rows = rows })
]

-- `get`
unfoldable pub get_record : Table IndexRecord → String → Option IndexRecord
unfolding find_row
get_record t id = find_row record_id t.rows id

-- `count`
unfoldable pub count : Table IndexRecord → ℕ
count t = length t.rows

pub record Query : Type 0 where
  pub source_store : Option String
  pub text : Option String
  pub metadata : Option Fields
  pub limit : Option ℕ
  pub offset : Option ℕ

-- `String.prototype.toLowerCase`, `JSON.stringify` of the metadata, and `===` of what a key has
pub record Texts : Type 0 where
  pub lower : String → String
  pub json : Fields → String
  pub strict_equal : Option Value → Value → Bool

unfoldable pub by_source_store : Option String → List IndexRecord → List IndexRecord
by_source_store none rs = rs
by_source_store (some s) rs =
    if s == "" then rs else filter (λ (r : IndexRecord). r.source_store == s) rs

-- the text or the metadata has the words of the query
unfoldable pub has_text : Texts → String → IndexRecord → Bool
unfolding contains
has_text x q r =
    contains (x.lower r.text) (x.lower q) || contains (x.lower (x.json r.metadata)) (x.lower q)

unfoldable pub by_text : Texts → Option String → List IndexRecord → List IndexRecord
unfolding has_text
by_text x none rs = rs
by_text x (some q) rs = if q == "" then rs else filter (has_text x q) rs

-- the loop over `Object.entries(query.metadata)`
unfoldable pub by_entries : Texts → Fields → List IndexRecord → List IndexRecord
unfolding get_field
by_entries x end rs = rs
by_entries x (field key value rest) rs =
    by_entries x rest
      (filter (λ (r : IndexRecord). x.strict_equal (get_field r.metadata key) value) rs)

unfoldable pub by_metadata : Texts → Option Fields → List IndexRecord → List IndexRecord
unfolding by_entries
by_metadata x none rs = rs
by_metadata x (some fields) rs = by_entries x fields rs

-- `Math.max(0, query.offset ?? 0)`
unfoldable pub offset_of : Option ℕ → ℕ
offset_of none = 0
offset_of (some n) = n

-- the slice of the candidates; a limit of 0 is none, and an offset of 0 skips none
unfoldable pub page : Option ℕ → ℕ → List IndexRecord → List IndexRecord
page none offset rs = drop offset rs
page (some zero) offset rs = drop offset rs
page (some (suc n)) offset rs = take (suc n) (drop offset rs)

-- `search`
unfoldable pub search : Texts → Table IndexRecord → Query → List IndexRecord
unfolding by_source_store by_text by_metadata offset_of page
search x t q =
    page q.limit (offset_of q.offset)
      (by_metadata x q.metadata (by_text x q.text (by_source_store q.source_store t.rows)))

-- the record of an input
unfoldable pub full_record : (id now : String) → IndexInput → IndexRecord
full_record id now r = record {
  id = id;
  source_id = r.source_id;
  source_store = r.source_store;
  text = r.text;
  metadata = r.metadata;
  indexed_at = now;
}

-- a record as `JSON.parse` gives it back
unfoldable pub reload_record : IndexRecord → IndexRecord
unfolding reload_fields
reload_record r = record r { metadata = reload_fields r.metadata }

-- `index`, with the new id and the time
unfoldable pub index :
    (id now : String) → IndexInput → Table IndexRecord → Reply IndexRecord × Table IndexRecord
unfolding full_record set_row persist_rows reload_record
index id now input t =
    let full = full_record id now input in
    persist_rows reload_record full (record t { rows = set_row record_id t.rows full })

-- `remove`
unfoldable pub remove : String → Table IndexRecord → Reply (Unit {0}) × Table IndexRecord
unfolding delete_row persist_rows reload_record
remove id t = persist_rows reload_record tt (record t { rows = delete_row record_id t.rows id })

-- `clear`
unfoldable pub clear : Table IndexRecord → Reply (Unit {0}) × Table IndexRecord
unfolding persist_rows reload_record
clear t = persist_rows reload_record tt (record t { rows = [] })

-- the records of the inputs, with the ids that `randomUUID` gives one after the other
unfoldable pub full_records :
    (ids : ℕ → String) (now : String) → ℕ → List IndexInput → List IndexRecord
unfolding full_record
full_records ids now n [] = []
full_records ids now n (r ∷ rs) = full_record (ids n) now r ∷ full_records ids now (n + 1) rs

-- `replaceAll`
unfoldable pub replace_all :
    (ids : ℕ → String) (now : String)
    → List IndexInput
    → Table IndexRecord
    → Reply (Unit {0}) × Table IndexRecord
unfolding full_records rows_of persist_rows reload_record
replace_all ids now inputs t =
    persist_rows reload_record tt
      (record t { rows = rows_of record_id [] (full_records ids now 0 inputs) })
