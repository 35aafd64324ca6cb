-- ===== src/Ops/References.antt =====
-- `checkProvenanceReferencesValid` and `checkReceiptsProvenanceValid` of src/ops/integrity-checks.ts.
use db_cluster.Prelude.{
  ℕ, zero, suc, String, Bool, false, not, Option, none, some, List, [], ◌∷◌, ◌==◌, ◌&&◌, ◌||◌,
  if◌then◌else◌,
}
use db_cluster.Json.{template, decimal}
use db_cluster.Errors.{Result, ok, err, ◌>>=◌, message}
use db_cluster.Ledger.{LedgerFilter, ReceiptFilter}
use db_cluster.Ledger.Types.{Event, Receipt}
use db_cluster.Ops.Health.{
  HealthCheck, HealthStatus, healthy, stale, unreachable, Severity, info, warning, error,
}

-- the severity of the three statuses that the two checks have
abbrev severity_of : HealthStatus → Severity
severity_of status = elim status [ healthy ↦ info | stale ↦ warning | _ ↦ error ]

abbrev reference_check : String → HealthStatus → String → HealthCheck
reference_check name status text = record {
  name = name;
  store = "ledger";
  status = status;
  severity = severity_of status;
  message = text;
  repair_available = false;
  suggested_command = none;
  next_steps = [];
  details = none;
}

-- an event whose subject the two stores can confirm
abbrev pub is_verifiable : Event → Bool
is_verifiable e =
    (e.subject_store == "canonical" || e.subject_store == "artifact") && not (e.subject_id == "")

-- the loop over the events, by the `exists` of the canonical and of the artifact store
unfoldable pub count_orphans :
    (in_canonical in_artifact : String → Result Bool) → List Event → Result ℕ
count_orphans in_canonical in_artifact [] = ok 0
count_orphans in_canonical in_artifact (e ∷ es) =
    let rest = count_orphans in_canonical in_artifact es in
    if is_verifiable e
    then (do
      c ← in_canonical e.subject_id
      a ← in_artifact e.subject_id
      n ← rest
      ok (if not c && not a then suc n else n))
    else rest

abbrev orphans_verdict : ℕ → HealthCheck
orphans_verdict zero =
    reference_check "provenance_references_valid" healthy
      "All sampled provenance events reference existing objects."
orphans_verdict (suc n) =
    record (reference_check "provenance_references_valid" stale (
      template (
        decimal (suc n)
        ∷ " provenance event(s) reference objects not found in canonical/artifact stores."
        ∷ []))) {
          suggested_command = some "db-cluster verify --json";
          next_steps =
              "Run `db-cluster trace <subjectId>` for the affected subjects to inspect lineage."
              ∷ "Reconcile by either restoring the missing canonical/artifact records or removing the stale provenance events from the ledger."
              ∷ [];
        }

abbrev orphans_unread : String → HealthCheck
orphans_unread why =
    record (reference_check "provenance_references_valid" unreachable
      (template ("Provenance verification failed: " ∷ why ∷ []))) {
        next_steps = "Inspect the ledger events.json file for corruption." ∷ [];
      }

unfoldable pub orphans_outcome : Result ℕ → HealthCheck
unfolding message
orphans_outcome (ok n) = orphans_verdict n
orphans_outcome (err e) = orphans_unread (message e)

-- what `checkProvenanceReferencesValid` asks `listEvents` for
abbrev pub sampled_events : ℕ → LedgerFilter
sampled_events limit = record { subject_id = none; action = none; since = none; limit = some limit }

-- `checkProvenanceReferencesValid`, by the `listEvents` of the ledger
unfoldable pub check_provenance_references_valid :
    (in_canonical in_artifact : String → Result Bool)
    (list_events : LedgerFilter → Result (List Event)) (limit : ℕ)
    → HealthCheck
unfolding count_orphans orphans_outcome
check_provenance_references_valid in_canonical in_artifact list_events limit =
    orphans_outcome (list_events (sampled_events limit) >>= count_orphans in_canonical in_artifact)

-- the loop over the receipts, by the `getEvent` of the ledger
unfoldable pub count_missing : (get : String → Result (Option Event)) → List Receipt → Result ℕ
count_missing get [] = ok 0
count_missing get (r ∷ rs) =
    let rest = count_missing get rs in
    if r.provenance_event_id == "" then rest else (do
      found ← get r.provenance_event_id
      n ← rest
      ok (elim found [ none ↦ suc n | some e ↦ n ]))

abbrev missing_verdict : ℕ → HealthCheck
missing_verdict zero =
    reference_check "receipts_provenance_valid" healthy
      "All sampled receipts reference existing provenance events."
missing_verdict (suc n) =
    record (reference_check "receipts_provenance_valid" stale
      (template (decimal (suc n) ∷ " receipt(s) reference missing provenance events." ∷ []))) {
        suggested_command = some "db-cluster receipts";
        next_steps =
            "Run `db-cluster receipts` to inspect the affected receipts."
            ∷ "Run `db-cluster trace <eventId>` for the missing provenance events to find the lineage gap."
            ∷ [];
      }

abbrev missing_unread : String → HealthCheck
missing_unread why =
    record (reference_check "receipts_provenance_valid" unreachable
      (template ("Receipt verification failed: " ∷ why ∷ []))) {
        next_steps = "Inspect the ledger receipts.json file for corruption." ∷ [];
      }

unfoldable pub missing_outcome : Result ℕ → HealthCheck
unfolding message
missing_outcome (ok n) = missing_verdict n
missing_outcome (err e) = missing_unread (message e)

-- what `checkReceiptsProvenanceValid` asks `listReceipts` for
abbrev pub sampled_receipts : ℕ → ReceiptFilter
sampled_receipts limit = record { command_id = none; since = none; limit = some limit }

-- `checkReceiptsProvenanceValid`, by the `listReceipts` and the `getEvent` of the ledger
unfoldable pub check_receipts_provenance_valid :
    (get : String → Result (Option Event)) (list_receipts : ReceiptFilter → Result (List Receipt))
    (limit : ℕ)
    → HealthCheck
unfolding count_missing missing_outcome
check_receipts_provenance_valid get list_receipts limit =
    missing_outcome (list_receipts (sampled_receipts limit) >>= count_missing get)
