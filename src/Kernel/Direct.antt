-- ===== src/Kernel/Direct.antt =====
-- `ingestArtifact`, `createEntity`, `linkEvidence` and `rebuildIndex` of src/kernel/cluster-kernel.ts: the
-- mutations that need no proposal. Each saves a command of its own that is committed already.
use db_cluster.Prelude.{ℕ, String, true, Option, none, some, List, [], ◌∷◌}
use db_cluster.Json.{Value, null, bool, num, str, Fields, field, end, spread, template, decimal}
use db_cluster.Commands.{
  Command, CommandVerb, propose_command, validate_command, mark_committed, assert_valid_payload,
}
use db_cluster.Canonical.{Entity}
use db_cluster.Ledger.Types.{Event, Receipt}
use db_cluster.Stores.{Host, Artifact, IndexRecord}
use db_cluster.Kernel.Action.{Action, call, draw, check, pure, catch, ◌>>=◌}
use db_cluster.Kernel.Recording.{
  record_provenance, emit_receipt, orphaned, save_command, assert_actor_text,
}
use db_cluster.Kernel.Arms.{text_of, index_entity, must_exist, perform_index_rebuild}

-- `IngestArtifactInput`; what a caller gives is checked at run time
pub record IngestArtifactInput : Type 0 where
  pub filename : Option Value
  pub content : Option Value
  pub mime_type : Option Value
  pub actor_id : String

-- `CreateEntityInput`
pub record CreateEntityInput : Type 0 where
  pub kind : Option Value
  pub name : Option Value
  pub attributes : Value
  pub actor_id : String

-- `LinkEvidenceInput`
pub record LinkEvidenceInput : Type 0 where
  pub artifact_id : String
  pub entity_id : String
  pub actor_id : String
  pub detail : Option Fields

-- the event and the receipt of a mutation
pub record Recorded : Type 0 where
  pub provenance : Event
  pub receipt : Receipt

pub record Ingested : Type 0 where
  pub artifact : Artifact
  pub index_record : IndexRecord
  pub recorded : Recorded

pub record Created : Type 0 where
  pub entity : Entity
  pub index_record : IndexRecord
  pub recorded : Recorded

-- a key where its value is there
abbrev given_field : String → Option Value → Fields → Fields
given_field key none rest = rest
given_field key (some v) rest = field key v rest

-- `content ?? null`
abbrev or_null : Option Value → Value
or_null none = null
or_null (some v) = v

abbrev or_end : Option Fields → Fields
or_end none = end
or_end (some f) = f

module _ {W : Type 0} (host : Host W) where
  -- `assertValidPayload`
  unfoldable pub check_payload : CommandVerb → String → Fields → String → Action W (Unit {0})
  unfolding assert_valid_payload
  check_payload verb store payload actor = do
    id ← draw host.random_uuid
    now ← draw host.now
    check (assert_valid_payload id now verb store payload actor)

  -- `markCommitted(validateCommand(proposeCommand(...)))`
  unfoldable pub committed_command : CommandVerb → String → Fields → String → Action W Command
  unfolding propose_command validate_command mark_committed
  committed_command verb store payload actor = do
    id ← draw host.random_uuid
    proposed_at ← draw host.now
    validated_at ← draw host.now
    validated ←
        check
          (validate_command validated_at (propose_command id proposed_at verb store payload actor))
    committed_at ← draw host.now
    check (mark_committed committed_at validated none)

  -- the event, the command and the receipt behind a mutation, and their `catch`
  unfoldable pub record_direct :
      (action subject_id subject_store actor : String)
      → (detail orphan_detail : Fields) → (summary : String) (affected : List String) → Command
      → Action W Recorded
  unfolding record_provenance save_command emit_receipt orphaned
  record_direct action subject_id subject_store actor detail orphan_detail summary affected c =
      catch
        (do
          provenance ← record_provenance host action actor subject_id subject_store detail none
          _ ← save_command host c
          receipt ← emit_receipt host c summary affected provenance.id
          pure (record { provenance = provenance; receipt = receipt }))
        (orphaned host subject_id subject_store c.id orphan_detail)

  -- `ingestArtifact`
  unfoldable pub ingest_artifact : IngestArtifactInput → Action W Ingested
  unfolding text_of
  ingest_artifact i =
      let filename = text_of host i.filename in
      do
        _ ← assert_actor_text host "actorId" i.actor_id
        _ ←
            check_payload CommandVerb.ingest_artifact "artifact"
              (given_field "filename" i.filename (field "content" (or_null i.content) end))
              i.actor_id
        artifact ← call (host.artifact_ingest i.filename (or_null i.content) i.mime_type)
        index_record ← call (
            host.index_add (record {
              source_id = artifact.id;
              source_store = "artifact";
              text = template (filename ∷ " [" ∷ text_of host i.mime_type ∷ "]" ∷ []);
              metadata = given_field "filename" i.filename (
                  given_field "mimeType" i.mime_type (
                    field "contentHash" (str artifact.content_hash)
                      (field "version" (num (decimal artifact.version)) end)));
            }))
        c ←
            committed_command CommandVerb.ingest_artifact "artifact"
              (field "artifactId" (str artifact.id) end) i.actor_id
        recorded ←
            record_direct "artifact_ingested" artifact.id "artifact" i.actor_id
              (given_field "filename" i.filename
                (field "version" (num (decimal artifact.version)) end))
              (field "verb" (str "ingest_artifact")
                (given_field "filename" i.filename (field "actorId" (str i.actor_id) end)))
              (template ("Ingested artifact: " ∷ filename ∷ " v" ∷ decimal artifact.version ∷ []))
              (artifact.id ∷ index_record.id ∷ []) c
        pure (record { artifact = artifact; index_record = index_record; recorded = recorded })

  -- `createEntity`
  unfoldable pub create_entity : CreateEntityInput → Action W Created
  unfolding text_of index_entity
  create_entity i =
      let kind = text_of host i.kind in
      let entity_name = text_of host i.name in
      let named = given_field "kind" i.kind (given_field "name" i.name end) in
      do
        _ ← assert_actor_text host "actorId" i.actor_id
        _ ← check_payload CommandVerb.create_entity "canonical" named i.actor_id
        entity ← call (host.canonical_create kind entity_name i.attributes)
        index_record ← call (host.index_add (index_entity entity))
        c ←
            committed_command CommandVerb.create_entity "canonical"
              (field "entityId" (str entity.id) named) i.actor_id
        recorded ←
            record_direct "entity_created" entity.id "canonical" i.actor_id named
              (field "verb" (str "create_entity") (
                given_field "kind" i.kind
                  (given_field "name" i.name (field "actorId" (str i.actor_id) end))))
              (template ("Created entity: " ∷ kind ∷ "/" ∷ entity_name ∷ []))
              (entity.id ∷ index_record.id ∷ []) c
        pure (record { entity = entity; index_record = index_record; recorded = recorded })

  -- `linkEvidence`
  unfoldable pub link_evidence : LinkEvidenceInput → Action W Recorded
  unfolding spread
  link_evidence i =
      let both = field "artifactId" (str i.artifact_id) (field "entityId" (str i.entity_id) end) in
      do
        _ ← assert_actor_text host "actorId" i.actor_id
        artifact_there ← call (host.artifact_exists i.artifact_id)
        _ ← must_exist host "artifact" i.artifact_id artifact_there
        entity_there ← call (host.canonical_exists i.entity_id)
        _ ← must_exist host "canonical" i.entity_id entity_there
        c ← committed_command CommandVerb.link_evidence "ledger" both i.actor_id
        record_direct "evidence_linked" i.entity_id "canonical" i.actor_id
            (spread both (or_end i.detail))
            (field "verb" (str "link_evidence") (
              field "artifactId" (str i.artifact_id)
                (field "entityId" (str i.entity_id) (field "actorId" (str i.actor_id) end))))
            (template
              ("Linked artifact " ∷ i.artifact_id ∷ " as evidence for entity " ∷ i.entity_id ∷ []))
            (i.artifact_id ∷ i.entity_id ∷ []) c

  -- `rebuildIndex`
  unfoldable pub rebuild_index : (actor : String) → Action W (ℕ × Recorded)
  rebuild_index actor = do
    _ ← assert_actor_text host "actorId" actor
    rebuilt ← perform_index_rebuild host
    c ←
        committed_command CommandVerb.reindex "index" (field "rebuilt" (num (decimal rebuilt)) end)
          actor
    recorded ←
        record_direct "index_rebuilt" "index" "index" actor
          (field "rebuilt" (num (decimal rebuilt)) (field "clearedFirst" (bool true) end))
          (field "verb" (str "reindex")
            (field "rebuilt" (num (decimal rebuilt)) (field "actorId" (str actor) end)))
          (template ("Index rebuilt: " ∷ decimal rebuilt ∷ " records from owner stores" ∷ [])) [] c
    pure (rebuilt, recorded)
