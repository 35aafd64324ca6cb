-- ===== src/Ledger.antt =====
-- src/adapters/local/local-ledger-store.ts: the events and the receipts, each a chain of hashes with a
-- file of lines. The sweep of stale temporary files at construction touches neither of the files.
pub mod Types
pub mod Log
pub mod Trace
pub mod Tracing
pub mod Recovery
pub mod Queries
pub mod Rotate
pub mod Open
pub mod Torn
pub mod Opening
mod Dedup
pub mod Rotation
pub mod Kept
mod Examples
use db_cluster.Prelude.{
  ℕ, zero, suc, ◌+◌, String, Bool, true, false, not, Option, none, some, List, [], ◌∷◌, ◌++◌, ◌==◌,
  filter, length, leb, if◌then◌else◌,
}
use db_cluster.Json.{Fields, end, field, num, str, decimal}
use db_cluster.StoreErrors.{Reply, throw, return, assert_content_match}
use db_cluster.Ledger.Types.{Event, Receipt, Sealed, event_sealed, receipt_sealed}
use db_cluster.Ledger.Log.{
  LogFile, Fault, Loaded, load_array, append_one, append_line, find_record, limited, earlier, stamp,
  get_record, reconcile, record_line, ndjson,
}

-- The records in memory, the two files, and for each write to come the way in which it goes wrong, if it
-- does.
pub record Ledger : Type 0 where
  pub events : List Event
  pub receipts : List Receipt
  pub events_path : String
  pub receipts_path : String
  pub events_file : LogFile Event
  pub receipts_file : LogFile Receipt
  pub writes : ℕ
  pub fault : ℕ → Option Fault

-- What the caller of `append` gives.
pub record EventInput : Type 0 where
  pub action : String
  pub actor_id : String
  pub subject_id : String
  pub subject_store : String
  pub detail : Fields
  pub parent_event_id : Option String

-- What the caller of `appendReceipt` gives.
pub record ReceiptInput : Type 0 where
  pub command_id : String
  pub result_summary : String
  pub affected_ids : List String
  pub provenance_event_id : String

-- the input with the fields that the store sets, before the stamp
unfoldable pub assemble_event : (id now : String) → EventInput → Event
assemble_event id now i = record {
  id = id;
  timestamp = now;
  action = i.action;
  actor_id = i.actor_id;
  subject_id = i.subject_id;
  subject_store = i.subject_store;
  detail = i.detail;
  parent_event_id = i.parent_event_id;
  prev_hash = none;
  integrity_hash = "";
}

unfoldable pub assemble_receipt : (id now : String) → ReceiptInput → Receipt
assemble_receipt id now i = record {
  id = id;
  command_id = i.command_id;
  committed_at = now;
  result_summary = i.result_summary;
  affected_ids = i.affected_ids;
  provenance_event_id = i.provenance_event_id;
  prev_hash = none;
  integrity_hash = "";
}

-- the ledger with an event in memory, and the outcome of writing it
abbrev pub event_written : Event → Ledger → Reply Event × LogFile Event → Reply Event × Ledger
event_written e l (r, file) =
    (r, record l { events = l.events ++ e ∷ []; events_file = file; writes = l.writes + 1 })

abbrev pub receipt_written :
    Receipt → Ledger → Reply Receipt × LogFile Receipt → Reply Receipt × Ledger
receipt_written x l (r, file) =
    (r, record l { receipts = l.receipts ++ x ∷ []; receipts_file = file; writes = l.writes + 1 })

-- `this.events.push(event); this.appendOneEvent(event)`
unfoldable pub push_event : (cause : String) → Event → Ledger → Reply Event × Ledger
unfolding append_one
push_event cause e l = event_written e l (append_one cause e l.events_file (l.fault l.writes))

unfoldable pub push_receipt : (cause : String) → Receipt → Ledger → Reply Receipt × Ledger
unfolding append_one
push_receipt cause x l = receipt_written x l (append_one cause x l.receipts_file (l.fault l.writes))

-- What a query of the events asks for; a field that is "" asks for nothing.
pub record LedgerFilter : Type 0 where
  pub subject_id : Option String
  pub action : Option String
  pub since : Option String
  pub limit : Option ℕ

pub record ReceiptFilter : Type 0 where
  pub command_id : Option String
  pub since : Option String
  pub limit : Option ℕ

-- whether a field is as asked for
abbrev pub as_asked : Option String → (String → Bool) → Bool
as_asked none test = true
as_asked (some s) test = if s == "" then true else test s

-- one pass of the queries
abbrev pub keep : {A : Type 0} → Option String → (String → A → Bool) → List A → List A
keep none test xs = xs
keep (some s) test xs = if s == "" then xs else filter (test s) xs

-- `listEvents`
unfoldable pub list_events : LedgerFilter → Ledger → List Event
unfolding earlier limited
list_events f l =
    let by_subject = keep f.subject_id (λ s (e : Event). e.subject_id == s) l.events in
    let by_action = keep f.action (λ s (e : Event). e.action == s) by_subject in
    let by_time = keep f.since (λ s (e : Event). not (earlier e.timestamp s)) by_action in
    limited f.limit by_time

-- `listReceipts`
unfoldable pub list_receipts : ReceiptFilter → Ledger → List Receipt
unfolding earlier limited
list_receipts f l =
    let by_command = keep f.command_id (λ s (r : Receipt). r.command_id == s) l.receipts in
    let by_time = keep f.since (λ s (r : Receipt). not (earlier r.committed_at s)) by_command in
    limited f.limit by_time

-- whether the loop of `countEvents` goes on to the next event
abbrev pub skips : LedgerFilter → Event → Bool
skips f e =
    if as_asked f.subject_id (λ s. e.subject_id == s)
    then (if as_asked f.action (λ s. e.action == s)
        then not (as_asked f.since (λ s. not (earlier e.timestamp s)))
        else true)
    else true

unfoldable pub count_from : LedgerFilter → ℕ → List Event → ℕ
count_from f n [] = n
count_from f n (e ∷ es) = count_from f (if skips f e then n else n + 1) es

-- `countEvents`
unfoldable pub count_events : Option LedgerFilter → Ledger → ℕ
unfolding count_from
count_events none l = length l.events
count_events (some f) l = count_from f 0 l.events

-- `digest` is the SHA-256 of node:crypto, and `cause` what `JSON.parse` says of a text with more behind
-- its end.
module _ (digest cause : String → String) where
  -- `append`, with the new id and the time
  unfoldable pub append : (id now : String) → EventInput → Ledger → Reply Event × Ledger
  unfolding assemble_event stamp push_event
  append id now i l =
      push_event (cause l.events_path) (stamp digest l.events (assemble_event id now i)) l

  -- `appendReceipt`, with the new id and the time
  unfoldable pub append_receipt : (id now : String) → ReceiptInput → Ledger → Reply Receipt × Ledger
  unfolding assemble_receipt stamp push_receipt
  append_receipt id now i l =
      push_receipt (cause l.receipts_path) (stamp digest l.receipts (assemble_receipt id now i)) l

  -- `getEvent`
  unfoldable pub get_event : String → Ledger → Reply (Option Event)
  unfolding get_record
  get_event id l = get_record digest id l.events

  -- `getReceipt`
  unfoldable pub get_receipt : String → Ledger → Reply (Option Receipt)
  unfolding get_record
  get_receipt id l = get_record digest id l.receipts

  -- `importEvent` of a snapshot with its hash, by the event that is there
  unfoldable pub import_event_at :
      (json : Event → String) → Event → Ledger → Option Event → Reply Event × Ledger
  unfolding push_event
  import_event_at json e l (some existing) =
      (assert_content_match json "ledger.event" e.id existing e, l)
  import_event_at json e l none = push_event (cause l.events_path) e l

  unfoldable pub import_reconciled :
      (json : Event → String) → Ledger → Reply Event → Reply Event × Ledger
  unfolding import_event_at find_record
  import_reconciled json l (throw e) = (throw e, l)
  import_reconciled json l (return e) = import_event_at json e l (find_record e.id l.events)

  -- `importEvent`; `json` is `JSON.stringify` of an event without its owner
  unfoldable pub import_event : (json : Event → String) → Event → Ledger → Reply Event × Ledger
  unfolding import_reconciled reconcile
  import_event json e l = import_reconciled json l (reconcile digest e)

  unfoldable pub import_receipt_at :
      (json : Receipt → String) → Receipt → Ledger → Option Receipt → Reply Receipt × Ledger
  unfolding push_receipt
  import_receipt_at json r l (some existing) =
      (assert_content_match json "ledger.receipt" r.id existing r, l)
  import_receipt_at json r l none = push_receipt (cause l.receipts_path) r l

  unfoldable pub import_receipt_reconciled :
      (json : Receipt → String) → Ledger → Reply Receipt → Reply Receipt × Ledger
  unfolding import_receipt_at find_record
  import_receipt_reconciled json l (throw e) = (throw e, l)
  import_receipt_reconciled json l (return r) =
      import_receipt_at json r l (find_record r.id l.receipts)

  -- `importReceipt`
  unfoldable pub import_receipt :
      (json : Receipt → String) → Receipt → Ledger → Reply Receipt × Ledger
  unfolding import_receipt_reconciled reconcile
  import_receipt json r l = import_receipt_reconciled json l (reconcile digest r)
