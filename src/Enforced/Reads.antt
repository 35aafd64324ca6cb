-- ===== src/Enforced/Reads.antt =====
-- The reads of `PolicyEnforcedKernel`: of entities and their versions, commands, receipts and events.
use Prim.Native.Nat.{Ordering}
use db_cluster.Prelude.{ℕ, String, Option, none, some, List, [], ◌∷◌, map, filter, if◌then◌else◌}
use db_cluster.Json.{Fields, template}
use db_cluster.Commands.{Command, CommandStatus, verb_name}
use db_cluster.Canonical.{Entity}
use db_cluster.Ledger.{ReceiptFilter}
use db_cluster.Ledger.Types.{Event, Receipt, event_fields, receipt_fields}
use db_cluster.Stores.{Host, Artifact}
use db_cluster.Policy.{Capability, read_owner_truth, read_command, read_receipts, RedactionRule}
use db_cluster.Redactor.{
  redact_artifact, redact_entity, redact_command, redact_receipt, redact_provenance_event,
}
use db_cluster.Kernel.Action.{on_commands}
use db_cluster.Kernel.Stored
use db_cluster.Kernel.Recording.{inspect_stored}
use db_cluster.Kernel.Reads
use db_cluster.Enforced.{
  Gatekeeper, Resource, anything, Guarded, delegate, attempt, pure, ◌>>=◌, decide, is_allowed,
  enforce, missing, refuse, refined_deny, has_any_per_resource_rule, collect_redaction_rules,
  entity_fields, artifact_fields, command_fields, shown,
}

-- `cluster://store/id`
abbrev pub uri_of : (store id : String) → String
uri_of store id = template ("cluster://" ∷ store ∷ "/" ∷ id ∷ [])

-- a store
abbrev pub in_store : String → Resource
in_store store = record anything { owner_store = some store }

-- an object of a store
abbrev pub object_in : (store id : String) → Resource
object_in store id = record anything {
  owner_store = some store;
  resource_uri = some (uri_of store id);
}

abbrev pub entity_named : String → Entity → Resource
entity_named id e = record (object_in "canonical" id) { entity_kind = some e.kind }

abbrev pub entity_resource : Entity → Resource
entity_resource e = entity_named e.id e

abbrev pub artifact_resource : Artifact → Resource
artifact_resource a = object_in "artifact" a.id

abbrev pub command_named : String → Command → Resource
command_named id c = record (object_in "ledger" id) { command_verb = some (verb_name c.verb) }

abbrev pub command_resource : Command → Resource
command_resource c = command_named c.id c

abbrev pub receipt_resource : Receipt → Resource
receipt_resource r = record anything {
  owner_store = some "ledger";
  resource_uri = some (uri_of "receipt" r.id);
}

module _ (locale : String → String → Ordering) (g : Gatekeeper) where
  -- the items on which the principal is allowed the capability
  unfoldable pub permitted : {A : Type 0} → Capability → (A → Resource) → List A → List A
  permitted capability ask xs = filter (λ x. is_allowed locale g capability (ask x)) xs

  -- an item as the decision on it leaves it
  unfoldable pub disclose :
      {A : Type 0}
      → Capability
      → (A → Resource)
      → (Fields → List RedactionRule → Fields)
      → (A → Fields)
      → A
      → Fields
  unfolding shown collect_redaction_rules
  disclose capability ask redact view x =
      shown redact (collect_redaction_rules g (decide locale g capability (ask x))) (view x)

  -- the loop over the items that the wrapped lists share: `evaluatePolicy` on each, and its rules
  unfoldable pub filter_items :
      {A : Type 0}
      → Capability
      → (A → Resource)
      → (Fields → List RedactionRule → Fields)
      → (A → Fields)
      → List A
      → List Fields
  unfolding permitted disclose
  filter_items capability ask redact view xs =
      map (disclose capability ask redact view) (permitted capability ask xs)

module _ {W : Type 0} (locale : String → String → Ordering) (g : Gatekeeper) where
  -- the gate on the object that was read, and its redaction
  unfoldable pub refined :
      Capability → Resource → (Fields → List RedactionRule → Fields) → Fields → Guarded W Fields
  unfolding shown collect_redaction_rules
  refined capability r redact fields = do
    d ← enforce locale g capability r
    pure (shown redact (collect_redaction_rules g d) fields)

  -- the version that was read, or `null`
  unfoldable pub show_version : String → Option Entity → Guarded W (Option Fields)
  unfolding refined redact_entity entity_fields
  show_version id none =
      if has_any_per_resource_rule g read_owner_truth
      then refuse (refined_deny g read_owner_truth (uri_of "canonical" id))
      else pure none
  show_version id (some e) = do
    fields ← refined read_owner_truth (entity_named id e) redact_entity (entity_fields e)
    pure (some fields)

module _ {W : Type 0} (locale : String → String → Ordering) (host : Host W) (g : Gatekeeper) where
  -- `inspectEntity`
  unfoldable pub inspect_entity : String → Guarded W Fields
  unfolding refined redact_entity entity_fields
  inspect_entity id = do
    _ ← enforce locale g read_owner_truth (in_store "canonical")
    attempt (Reads.inspect_entity host id)
        (λ e. refined locale g read_owner_truth (entity_named id e) redact_entity (entity_fields e))
        (missing g read_owner_truth (uri_of "canonical" id))

  -- `listEntityVersions`
  unfoldable pub list_entity_versions : String → Guarded W (List Fields)
  unfolding filter_items redact_entity entity_fields
  list_entity_versions id = do
    _ ← enforce locale g read_owner_truth (in_store "canonical")
    versions ← delegate (Reads.list_entity_versions host id)
    pure (
        filter_items locale g read_owner_truth (entity_named id) redact_entity entity_fields
          versions)

  -- `getEntityVersion`
  unfoldable pub get_entity_version : String → ℕ → Guarded W (Option Fields)
  unfolding show_version
  get_entity_version id version = do
    _ ← enforce locale g read_owner_truth (in_store "canonical")
    found ← delegate (Reads.get_entity_version host id version)
    show_version locale g id found

  -- `listArtifactVersions`
  unfoldable pub list_artifact_versions : String → Guarded W (List Fields)
  unfolding filter_items redact_artifact artifact_fields
  list_artifact_versions filename = do
    _ ← enforce locale g read_owner_truth (in_store "artifact")
    versions ← delegate (Reads.list_artifact_versions host filename)
    pure (
        filter_items locale g read_owner_truth artifact_resource redact_artifact artifact_fields
          versions)

  -- `inspectCommand`
  unfoldable pub inspect_command : String → Guarded W Fields
  unfolding refined redact_command command_fields verb_name
  inspect_command id = do
    _ ← enforce locale g read_command (object_in "ledger" id)
    attempt (inspect_stored host id)
        (λ c. refined locale g read_command (command_named id c) redact_command (command_fields c))
        (missing g read_command (uri_of "ledger" id))

  -- `listReceipts`
  unfoldable pub list_receipts : ReceiptFilter → Guarded W (List Fields)
  unfolding filter_items redact_receipt
  list_receipts by = do
    _ ← enforce locale g read_receipts (in_store "ledger")
    receipts ← delegate (Reads.list_receipts host by)
    pure (
        filter_items locale g read_receipts receipt_resource redact_receipt receipt_fields receipts)

  -- `listCommands`
  unfoldable pub list_commands : Option CommandStatus → Guarded W (List Fields)
  unfolding filter_items redact_command command_fields verb_name
  list_commands status = do
    _ ← enforce locale g read_command (in_store "ledger")
    commands ← delegate (on_commands (Stored.list_commands status))
    pure
        (filter_items locale g read_command command_resource redact_command command_fields commands)

  -- `traceProvenance`
  unfoldable pub trace_provenance : String → Guarded W (List Fields)
  unfolding shown collect_redaction_rules redact_provenance_event
  trace_provenance id = do
    d ←
        enforce locale g Capability.trace_provenance
          (record anything { resource_uri = some (uri_of "canonical" id) })
    events ← delegate (Reads.trace_provenance host id)
    let rules = collect_redaction_rules g d
    pure (map (λ (e : Event). shown redact_provenance_event rules (event_fields e)) events)
