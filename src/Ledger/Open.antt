-- ===== src/Ledger/Open.antt =====
-- The constructor of src/adapters/local/local-ledger-store.ts: both files are loaded, and a file whose
-- tail was discarded is rewritten and the event of it recorded (`recordTailCorruption`). The recovery of
-- an interrupted rotation, which comes before, is in Ledger/Rotate.antt.
use db_cluster.Prelude.{ℕ, zero, suc, ◌+◌, String, Option, none, some, List, map}
use db_cluster.Json.{field, end, num, str, decimal}
use db_cluster.StoreErrors.{Reply, throw, return}
use db_cluster.Ledger.{Ledger, assemble_event, push_event}
use db_cluster.Ledger.Types.{Event, Receipt, event_sealed, receipt_sealed}
use db_cluster.Ledger.Log.{LogFile, ndjson, record_line, Fault, Loaded, load_array, stamp}

-- the file that `serializeNdjson` writes
abbrev pub rewritten : {A : Type 0} → List A → LogFile A
rewritten xs = ndjson (map record_line xs) none

-- What is loaded, in the ledger.
abbrev pub opened : Ledger → List Event → List Receipt → Ledger
opened l es rs = record l { events = es; receipts = rs }

unfoldable pub tail_event : (id now file : String) (discarded : ℕ) → Event
unfolding assemble_event
tail_event id now file discarded = assemble_event id now (record {
  action = "ledger_tail_corruption_recovered";
  actor_id = "local-ledger-store";
  subject_id = file;
  subject_store = "ledger";
  detail = field "discardedLines" (num (decimal discarded)) (field "file" (str file) end);
  parent_event_id = none;
})

-- The outcome of the rewrite of a file through a temporary one: what fails leaves the file.
abbrev pub repair_events : Option Fault → Ledger → Ledger
repair_events (some fault) l = record l { writes = l.writes + 1 }
repair_events none l = record l { events_file = rewritten l.events; writes = l.writes + 1 }

abbrev pub repair_receipts : Option Fault → Ledger → Ledger
repair_receipts (some fault) l = record l { writes = l.writes + 1 }
repair_receipts none l = record l { receipts_file = rewritten l.receipts; writes = l.writes + 1 }

module _ (digest cause : String → String) where
  -- the event, where the repair succeeded; what its write throws is dropped
  unfoldable pub audit_tail :
      Option Fault → (id now file : String) (discarded : ℕ) → Ledger → Ledger
  unfolding tail_event stamp push_event
  audit_tail (some fault) id now file discarded l = l
  audit_tail none id now file discarded l =
      (push_event (cause l.events_path) (stamp digest l.events (tail_event id now file discarded))
        l).1

  -- the two rounds of the loop of `recordTailCorruption`
  unfoldable pub record_events_tail : (id now : String) (discarded : ℕ) → Ledger → Ledger
  unfolding audit_tail
  record_events_tail id now zero l = l
  record_events_tail id now (suc n) l =
      audit_tail (l.fault l.writes) id now l.events_path (suc n)
        (repair_events (l.fault l.writes) l)

  unfoldable pub record_receipts_tail : (id now : String) (discarded : ℕ) → Ledger → Ledger
  unfolding audit_tail
  record_receipts_tail id now zero l = l
  record_receipts_tail id now (suc n) l =
      audit_tail (l.fault l.writes) id now l.receipts_path (suc n)
        (repair_receipts (l.fault l.writes) l)

  unfoldable pub open_loaded :
      (id now id' now' : String)
      → Ledger
      → Reply (Loaded Event)
      → Reply (Loaded Receipt)
      → Reply Ledger
  unfolding record_events_tail record_receipts_tail
  open_loaded id now id' now' l (throw e) rs = throw e
  open_loaded id now id' now' l (return es) (throw e) = throw e
  open_loaded id now id' now' l (return es) (return rs) = return (
      record_receipts_tail id' now' rs.discarded
        (record_events_tail id now es.discarded (opened l es.records rs.records)))

  -- the loads at the end of the constructor; the ids and the times are those of the two events
  unfoldable pub open_ledger : (id now id' now' : String) → Ledger → Reply Ledger
  unfolding open_loaded load_array
  open_ledger id now id' now' l =
      open_loaded id now id' now' l (load_array l.events_path l.events_file)
        (load_array l.receipts_path l.receipts_file)
