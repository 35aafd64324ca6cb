-- ===== src/Ops/Examples.antt =====
-- The checks on concrete records.
use db_cluster.Prelude.{
  String, Option, none, some, [], ◌∷◌, ◌==◌, ◌≡◌, ◌↔◌, inl, inr, refl, Bool-cases, if◌then◌else◌,
}
use db_cluster.Json.{end}
use db_cluster.Ledger.{Ledger, EventInput, append, list_receipts}
use db_cluster.Ledger.Types.{Event, Receipt, event_sealed, receipt_sealed}
use db_cluster.Ledger.Log.{missing}
use db_cluster.Ops.Chain.{check_integrity_chain}
use db_cluster.Errors.{Result, ok}
use db_cluster.Commands.{Command, create_entity, propose_command, compensated}
use db_cluster.Ops.Health.{healthy}
use db_cluster.Ops.Bijection.{check_command_receipt_bijection, IsBijection}
use db_cluster.Ops.Bijective.{check_command_receipt_bijection-IsBijection}
use db_cluster.Ops.References.{check_receipts_provenance_valid}
use db_cluster.Ops.Referenced.{IsReferenced, check_receipts_provenance_valid-IsReferenced}
use db_cluster.Ops.Intact.{NeverEmpty, IsChain, check_integrity_chain-IsChain}
use db_cluster.Ops.Appended.{here, after, event, check_integrity_chain-Appends}

-- a digest that keeps texts apart and is never empty
abbrev echo : String → String
echo t = if t == "" then "-" else t

echo-NeverEmpty : NeverEmpty echo
echo-NeverEmpty t = elim (Bool-cases (t == "")) [ inl e ↦ rw e refl | inr e ↦ rw (e, e) refl ]

abbrev excuse : String → String
excuse path = "junk behind the end"

abbrev fresh : Ledger
fresh = record {
  events = [];
  receipts = [];
  events_path = "events.json";
  receipts_path = "receipts.json";
  events_file = missing;
  receipts_file = missing;
  writes = 0;
  fault = λ n. none;
}

abbrev created : EventInput
created = record {
  action = "entity_created";
  actor_id = "ops:1";
  subject_id = "n1";
  subject_store = "canonical";
  detail = end;
  parent_event_id = none;
}

abbrev once : Ledger
once = (append echo excuse "e1" "2026-01-01" created fresh).1

abbrev twice : Ledger
twice = (append echo excuse "e2" "2026-01-02" created once).1

check_integrity_chain-Appends_example :
    (check_integrity_chain echo twice.events "event" ≡ [])
    × (check_integrity_chain echo twice.receipts "receipt" ≡ [])
check_integrity_chain-Appends_example =
    check_integrity_chain-Appends echo excuse echo-NeverEmpty
      (after (after here (event "e1" "2026-01-01" created fresh))
        (event "e2" "2026-01-02" created once))
      (tt, tt)

-- an event that was edited after it was written
abbrev edited_event : Event
edited_event = record {
  id = "e1";
  timestamp = "2026-01-01";
  action = "entity_created";
  actor_id = "ops:1";
  subject_id = "n1";
  subject_store = "canonical";
  detail = end;
  parent_event_id = none;
  prev_hash = none;
  integrity_hash = "stale";
}

check_integrity_chain-IsChain_example :
    (check_integrity_chain echo (edited_event ∷ []) "event" ≡ [])
    ↔ IsChain echo none (edited_event ∷ [])
check_integrity_chain-IsChain_example =
    check_integrity_chain-IsChain echo "event" (edited_event ∷ []) (refl, tt)

-- a compensated command, a proposed one, and the receipt of the first
abbrev undone : Command
unfolding propose_command
undone = record (propose_command "c1" "t0" create_entity "canonical" end "ops:1") {
  status = compensated;
}

abbrev open_command : Command
unfolding propose_command
open_command = propose_command "c2" "t1" create_entity "canonical" end "ops:1"

abbrev receipt : Receipt
receipt = record {
  id = "r1";
  command_id = "c1";
  committed_at = "t2";
  result_summary = "Created entity n1";
  affected_ids = "n1" ∷ [];
  provenance_event_id = "e1";
  prev_hash = none;
  integrity_hash = "h";
}

check_command_receipt_bijection-IsBijection_example :
    ((check_command_receipt_bijection (ok (receipt ∷ [])) (ok (open_command ∷ undone ∷ []))).status
      ≡ healthy)
    ↔ IsBijection (receipt ∷ []) (open_command ∷ undone ∷ [])
check_command_receipt_bijection-IsBijection_example =
    check_command_receipt_bijection-IsBijection (receipt ∷ []) (open_command ∷ undone ∷ [])

-- a ledger that holds one event
abbrev one_event : String → Result (Option Event)
one_event id = if id == "e1" then ok (some edited_event) else ok none

abbrev two_receipts : Ledger
two_receipts = record fresh {
  receipts = record receipt { provenance_event_id = "e9" } ∷ receipt ∷ [];
}

check_receipts_provenance_valid-IsReferenced_example :
    ((check_receipts_provenance_valid one_event (λ f. ok (list_receipts f two_receipts)) 1).status
      ≡ healthy)
    ↔ IsReferenced one_event (receipt ∷ [])
check_receipts_provenance_valid-IsReferenced_example =
    check_receipts_provenance_valid-IsReferenced one_event two_receipts 1
