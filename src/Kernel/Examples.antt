-- ===== src/Kernel/Examples.antt =====
-- The kernel on concrete commands, over the ledger of the local adapter.
use db_cluster.Prelude.{none, some, [], ◌∷◌, refl}
use db_cluster.Json.{obj, buffer, end, str}
use db_cluster.Errors.{assert_actor}
use db_cluster.Commands.{Command, committed}
use db_cluster.Commands.Validation.{accepted}
use db_cluster.Ledger.{Ledger}
use db_cluster.Ledger.Types.{event_sealed, receipt_sealed}
use db_cluster.Kernel.Stored.{in_memory}
use db_cluster.Kernel.Action.{State}
use db_cluster.Kernel.Validating.{validate_mutation}
use db_cluster.Kernel.Validate.{Verdict, validate_mutation-Verdict}
use db_cluster.Kernel.Rules.{Holds}
use db_cluster.Kernel.Commit.{commit_mutation}
use db_cluster.Kernel.Committing.{IsCommitted, IsFailed, commit_mutation-Holds}
use db_cluster.Kernel.Lifecycle.{compensate_mutation}
use db_cluster.Kernel.Compensating.{IsCompensated, IsUncompensated, compensate_mutation-Holds}
use db_cluster.Kernel.Direct
use db_cluster.Kernel.Direct.{
  IngestArtifactInput, CreateEntityInput, LinkEvidenceInput, ingest_artifact, link_evidence,
  rebuild_index,
}
use db_cluster.Kernel.Directly.{IsRecorded, IsUnrecorded, direct-Holds}
use db_cluster.Kernel.Returning.{Never, commit_mutation-create_entity}
use db_cluster.Kernel.Sample.{
  nameless, local_host, local_host-IsEchoing, local_host-IsCalm, empty_ledger, ready, start,
}

validate_mutation-Verdict_example :
    Verdict "c1" (accepted nameless) (validate_mutation "t1" "t2" "c1" (in_memory (nameless ∷ [])))
unfolding nameless
validate_mutation-Verdict_example =
    validate_mutation-Verdict "t1" "t2" "c1" nameless (nameless ∷ []) refl refl

commit_mutation-Holds_example :
    Holds
      (IsCommitted local_host "ops:1" ready (ready ∷ []))
      (IsFailed local_host "c1" ready (ready ∷ []))
      (commit_mutation local_host "c1" "ops:1" start)
unfolding ready
commit_mutation-Holds_example =
    commit_mutation-Holds local_host local_host-IsEchoing "c1" "ops:1" ready (ready ∷ []) start refl
      refl

commit_mutation-create_entity_example :
    Holds
      (IsCommitted local_host "ops:1" ready (ready ∷ []))
      (Never local_host)
      (commit_mutation local_host "c1" "ops:1" start)
unfolding ready assert_actor
commit_mutation-create_entity_example =
    commit_mutation-create_entity local_host local_host-IsEchoing local_host-IsCalm "c1" "ops:1"
      ready (ready ∷ []) start refl refl refl refl refl

-- the command once it is committed
abbrev done : Command
unfolding ready
done = record ready { status = committed }

abbrev later : State Ledger
later = record { world = empty_ledger; commands = in_memory (done ∷ []) }

compensate_mutation-Holds_example :
    Holds
      (IsCompensated local_host "ops:1" done (done ∷ []))
      (IsUncompensated local_host (done ∷ []))
      (compensate_mutation local_host "c1" "ops:1" "a duplicate" none later)
unfolding done
compensate_mutation-Holds_example =
    compensate_mutation-Holds local_host local_host-IsEchoing "c1" "ops:1" "a duplicate" none done
      (done ∷ []) later refl refl

abbrev vacant : State Ledger
vacant = record { world = empty_ledger; commands = in_memory [] }

abbrev ingested : IngestArtifactInput
ingested = record {
  filename = some (str "report.pdf");
  content = some (buffer (1 ∷ 2 ∷ []));
  mime_type = some (str "application/pdf");
  actor_id = "ops:1";
}

abbrev created : CreateEntityInput
created = record {
  kind = some (str "Person");
  name = some (str "Alice");
  attributes = obj end;
  actor_id = "ops:1";
}

abbrev linked : LinkEvidenceInput
linked = record { artifact_id = "a1"; entity_id = "n1"; actor_id = "ops:1"; detail = none }

direct-Holds_example :
    Holds
      (λ r t. IsRecorded local_host [] r.recorded t)
      (IsUnrecorded local_host [])
      (ingest_artifact local_host ingested vacant)
    × Holds
        (λ r t. IsRecorded local_host [] r.recorded t)
        (IsUnrecorded local_host [])
        (Direct.create_entity local_host created vacant)
    × Holds
        (λ r t. IsRecorded local_host [] r t)
        (IsUnrecorded local_host [])
        (link_evidence local_host linked vacant)
    × Holds
        (λ r t. IsRecorded local_host [] r.1 t)
        (IsUnrecorded local_host [])
        (rebuild_index local_host "ops:1" vacant)
direct-Holds_example =
    direct-Holds local_host local_host-IsEchoing ingested created linked "ops:1" [] vacant refl
