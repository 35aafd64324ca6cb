-- ===== src/Enforced/Writes.antt =====
-- The mutations of `PolicyEnforcedKernel`: from `proposeMutation` to `compensateMutation`, `rebuildIndex`,
-- `ingestArtifact`, `createEntity` and `linkEvidence`.
use Prim.Native.Nat.{Ordering}
use db_cluster.Prelude.{ℕ, String, Option, some}
use db_cluster.Json.{Fields}
use db_cluster.Commands.{Command, verb_name}
use db_cluster.Stores.{Host, IndexRecord}
use db_cluster.Policy.{
  Capability, commit_command, compensate_command, validate_command, approve_command, reject_command,
}
use db_cluster.Redactor.{redact_artifact, redact_entity}
use db_cluster.Kernel.Action
use db_cluster.Kernel.Action.{Action, draw, on_commands}
use db_cluster.Kernel.Recording.{inspect_stored}
use db_cluster.Kernel.Commit.{CommitMutationResult}
use db_cluster.Kernel.Commit
use db_cluster.Kernel.Lifecycle.{ProposeMutationInput, Compensation}
use db_cluster.Kernel.Lifecycle
use db_cluster.Kernel.Validating
use db_cluster.Kernel.Direct.{
  IngestArtifactInput, CreateEntityInput, LinkEvidenceInput, Recorded, Ingested, Created,
}
use db_cluster.Kernel.Direct
use db_cluster.Enforced.{
  Gatekeeper, Resource, anything, Guarded, delegate, attempt, pure, ◌>>=◌, enforce,
  assert_owner_store, collect_redaction_rules, entity_fields, artifact_fields, shown,
}

-- the resource that names a store and a verb
abbrev pub of_store : String → String → Resource
of_store store verb = record anything { owner_store = some store; command_verb = some verb }

abbrev pub of_verb : String → Resource
of_verb verb = record anything { command_verb = some verb }

-- the result of `ingestArtifact` and of `createEntity`, with the record redacted
pub record Disclosed : Type 0 where
  pub object : Fields
  pub index_record : IndexRecord
  pub recorded : Recorded

module _ {W : Type 0} (locale : String → String → Ordering) (host : Host W) (g : Gatekeeper) where
  -- `proposeMutation`
  unfoldable pub propose_mutation : ProposeMutationInput → Guarded W Command
  unfolding verb_name
  propose_mutation i = do
    store ← assert_owner_store g i.target_store Capability.propose_mutation
    _ ← enforce locale g Capability.propose_mutation (of_store store (verb_name i.verb))
    delegate (Lifecycle.propose_mutation host i)

  -- `validateMutation` of the kernel, which takes the time twice
  unfoldable pub validated : (id : String) → Action W Command
  validated id = Action.◌>>=◌ (draw host.now) (λ now.
      Action.◌>>=◌ (draw host.now)
        (λ later. on_commands (Validating.validate_mutation now later id)))

  -- `validateMutation`
  unfoldable pub validate_mutation : (id : String) → Guarded W Command
  validate_mutation id = do _ ← enforce locale g validate_command anything; delegate (validated id)

  -- `approveMutation`
  unfoldable pub approve_mutation : (id approved_by : String) → Option String → Guarded W Command
  approve_mutation id approved_by note = do
    _ ← enforce locale g approve_command anything
    delegate (Lifecycle.approve_mutation host id approved_by note)

  -- `rejectMutation`
  unfoldable pub reject_mutation : (id rejected_by reason : String) → Guarded W Command
  reject_mutation id rejected_by reason = do
    _ ← enforce locale g reject_command anything
    delegate (Lifecycle.reject_mutation host id rejected_by reason)

  -- the gate of a commit, and the commit
  unfoldable pub commit_within : (id actor : String) → Resource → Guarded W CommitMutationResult
  commit_within id actor r = do
    _ ← enforce locale g commit_command r
    delegate (Commit.commit_mutation host id actor)

  -- `commitMutation`: the gate names the store and the verb of the command where there is one
  unfoldable pub commit_mutation : (id actor : String) → Guarded W CommitMutationResult
  unfolding commit_within verb_name
  commit_mutation id actor =
      attempt (inspect_stored host id)
        (λ c. commit_within id actor (of_store c.target_store (verb_name c.verb)))
        (λ e. commit_within id actor anything)

  unfoldable pub compensate_within :
      (id by reason : String) → Option Fields → Resource → Guarded W Compensation
  compensate_within id by reason payload r = do
    _ ← enforce locale g compensate_command r
    delegate (Lifecycle.compensate_mutation host id by reason payload)

  -- `compensateMutation`
  unfoldable pub compensate_mutation :
      (id by reason : String) → Option Fields → Guarded W Compensation
  unfolding compensate_within
  compensate_mutation id by reason payload =
      attempt (inspect_stored host id)
        (λ c. compensate_within id by reason payload (of_store c.target_store "compensate"))
        (λ e. compensate_within id by reason payload (of_verb "compensate"))

  -- `rebuildIndex`
  unfoldable pub rebuild_index : (actor : String) → Guarded W (ℕ × Recorded)
  rebuild_index actor = do
    _ ← enforce locale g commit_command (of_verb "reindex")
    delegate (Direct.rebuild_index host actor)

  -- `linkEvidence`
  unfoldable pub link_evidence : LinkEvidenceInput → Guarded W Recorded
  link_evidence i = do
    _ ← enforce locale g commit_command (of_store "canonical" "link_evidence")
    delegate (Direct.link_evidence host i)

  -- `ingestArtifact`
  unfoldable pub ingest_artifact : IngestArtifactInput → Guarded W Disclosed
  unfolding shown artifact_fields collect_redaction_rules redact_artifact
  ingest_artifact i = do
    d ← enforce locale g commit_command (of_store "artifact" "ingest_artifact")
    result ← delegate (Direct.ingest_artifact host i)
    pure (record {
      object =
          shown redact_artifact (collect_redaction_rules g d) (artifact_fields result.artifact);
      index_record = result.index_record;
      recorded = result.recorded;
    })

  -- `createEntity`
  unfoldable pub create_entity : CreateEntityInput → Guarded W Disclosed
  unfolding shown entity_fields collect_redaction_rules redact_entity
  create_entity i = do
    d ← enforce locale g commit_command (of_store "canonical" "create_entity")
    result ← delegate (Direct.create_entity host i)
    pure (record {
      object = shown redact_entity (collect_redaction_rules g d) (entity_fields result.entity);
      index_record = result.index_record;
      recorded = result.recorded;
    })
