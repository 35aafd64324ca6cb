-- ===== src/Ledger/Examples.antt =====
-- The ledger on concrete records.
use db_cluster.Prelude.{
  String, Bool, false, Option, none, some, List, [], ◌∷◌, ◌++◌, ◌≡◌, refl, ◌⊎◌, true, if◌then◌else◌,
}
use db_cluster.Json.{end}
use db_cluster.StoreErrors.{Reply, return}
use db_cluster.Ledger.{Ledger, LedgerFilter}
use db_cluster.Ledger.Types.{Event, event_sealed}
use db_cluster.Ledger.Log.{Loaded, torn_write, load_array, append_one, find_record, missing}
use db_cluster.Ledger.Trace.{trace}
use db_cluster.Ledger.Tracing.{IsOutcome, trace-IsOutcome}
use db_cluster.Ledger.Recovery.{file_of, is_whole, load_array-append_one}
use db_cluster.StoreErrors.{StoreError, throw}
use db_cluster.Ledger.Torn.{torn_then_two, load_array-torn_then_two}
use db_cluster.Ledger.Rotate.{
  Stuck, Chains, Folder, rotation_writes, serialize_ndjson, lines_at, crash_after, rotate,
  recover_interrupted_rotation,
}
use db_cluster.Ledger.Rotation.{IsReady, IsUnrotated, IsRotated, recover-crash_after}
use db_cluster.Ledger.Kept.{IsKept, rotate-IsKept}

abbrev event_named : (id time : String) → Option String → Event
event_named id time parent = record {
  id = id;
  timestamp = time;
  action = "entity_created";
  actor_id = "ops:1";
  subject_id = "n1";
  subject_store = "canonical";
  detail = end;
  parent_event_id = parent;
  prev_hash = none;
  integrity_hash = "h";
}

abbrev first : Event
first = event_named "e1" "2026-01-01" (some "e2")

abbrev second : Event
second = event_named "e2" "2026-01-02" (some "e1")

-- two events that name each other as the parent
abbrev tangled : List Event
tangled = first ∷ second ∷ []

trace-IsOutcome_example :
    (r : Reply (List Event)) × (trace "e2" tangled ≡ some r)
    × IsOutcome tangled (find_record "e2" tangled) r
trace-IsOutcome_example = trace-IsOutcome "e2" tangled

load_array-append_one_example :
    (r : Loaded Event) × (load_array "events.json"
        (append_one "junk" second (file_of (first ∷ [])) (some (torn_write "ENOSPC"))).1
      ≡ return r)
    × (r.records ≡ (
        if is_whole (some (torn_write "ENOSPC")) then (first ∷ []) ++ second ∷ [] else first ∷ []))
load_array-append_one_example =
    load_array-append_one "events.json" "junk" first [] second (some (torn_write "ENOSPC"))
      (refl, tt) refl

abbrev two_events : Ledger
two_events = record {
  events = tangled;
  receipts = [];
  events_path = "events.json";
  receipts_path = "receipts.json";
  events_file = file_of tangled;
  receipts_file = missing;
  writes = 0;
  fault = λ n. none;
}

abbrev of_subject : LedgerFilter
of_subject = record { subject_id = some "n1"; action = none; since = none; limit = some 1 }

abbrev chains : Chains
chains = record { events = tangled; receipts = [] }

abbrev folder : Folder
folder = record {
  events_lines = some (serialize_ndjson tangled);
  receipts_lines = some [];
  events_archives = [];
  receipts_archives = [];
  staged_events = none;
  staged_receipts = none;
  marker = none;
}

folder-IsReady : IsReady "events-a" "receipts-a" chains folder
unfolding lines_at
folder-IsReady = record {
  events_held = refl;
  receipts_held = refl;
  unmarked = refl;
  events_path_new = refl;
  receipts_path_new = refl;
  events_named = (refl, (refl, tt));
  receipts_named = tt;
  events_distinct = ((refl, tt), (tt, tt));
  receipts_distinct = tt;
}

abbrev boundary : String
boundary = "2026-01-02"

-- the process dies between the two renames
abbrev crashed : Folder
unfolding crash_after rotation_writes
crashed = crash_after 6 (rotation_writes "events-a" "receipts-a" boundary chains) folder

recover-crash_after_example :
    IsUnrotated chains (recover_interrupted_rotation crashed)
    ⊎ IsRotated "events-a" "receipts-a" boundary chains (recover_interrupted_rotation crashed)
unfolding crashed
recover-crash_after_example =
    recover-crash_after "events-a" "receipts-a" boundary chains folder folder-IsReady 6

abbrev any_date : String → Bool
any_date text = true

-- the marker cannot be removed
abbrev stuck_marker : Stuck
stuck_marker = record { staged_events = false; staged_receipts = false; marker = true }

rotate-IsKept_example :
    IsKept "events-a" "receipts-a" boundary stuck_marker chains
      (rotate any_date "2026-02-01" "events-a" "receipts-a" boundary
        (some (6, "EIO"))
        stuck_marker
        chains
        folder).2
rotate-IsKept_example =
    rotate-IsKept "events-a" "receipts-a" boundary chains folder folder-IsReady any_date
      "2026-02-01" (some (6, "EIO")) stuck_marker

load_array-torn_then_two_example :
    (e : StoreError) × (load_array "events.json"
        (torn_then_two "junk" "ENOSPC" first second first (file_of (first ∷ [])))
      ≡ throw e)
load_array-torn_then_two_example =
    load_array-torn_then_two "events.json" "junk" "ENOSPC" (first ∷ []) first second first
      (refl, tt) refl

abbrev plain : String → String
plain t = t
