-- ===== src/Kernel/Lifecycle.antt =====
-- `proposeMutation`, `approveMutation`, `rejectMutation` and `compensateMutation` of
-- src/kernel/cluster-kernel.ts.
use db_cluster.Prelude.{
  ℕ, String, Bool, true, Option, none, some, List, [], ◌∷◌, ◌==◌, if◌then◌else◌,
}
use db_cluster.Json.{
  Value, str, buffer, obj, Fields, field, end, get_field, set_field, spread, template,
}
use db_cluster.Errors.{content_hash_mismatch, invalid_state_transition}
use db_cluster.Commands.{
  Command, CommandVerb, verb_name, status_name, is_committed, propose_command, validate_command,
  approve_command, reject_command, mark_committed, mark_compensated,
}
use db_cluster.Ledger.Types.{Receipt}
use db_cluster.Stores.{Host}
use db_cluster.Kernel.Action.{Action, call, draw, check, pure, throw_error, catch, ◌>>=◌}
use db_cluster.Kernel.Recording.{
  record_provenance, emit_receipt, orphaned, save_command, inspect_stored, assert_actor_text,
  staging, delete_staging_file,
}

-- `ProposeMutationInput`
pub record ProposeMutationInput : Type 0 where
  pub verb : CommandVerb
  pub target_store : String
  pub payload : Fields
  pub proposed_by : String

-- What `compensateMutation` returns.
pub record Compensation : Type 0 where
  pub compensating_command : Command
  pub original_command : Command
  pub receipt : Receipt

-- `claimedHash || '<missing>'`, and `claimedHash`
abbrev claimed_hash : Option Value → String
claimed_hash (some (str hash)) = hash
claimed_hash _ = ""

abbrev or_missing : String → String
or_missing hash = if hash == "" then "<missing>" else hash

-- the bytes of a proposal to ingest
abbrev bytes_of : String → Option Value → Option (List ℕ)
bytes_of verb (some (buffer bytes)) = if verb == "ingest_artifact" then some bytes else none
bytes_of verb _ = none

-- the detail of the orphan event of a compensation
unfoldable pub compensation_detail : (id by reason compensating_id : String) → Fields
compensation_detail id by reason compensating_id = field "verb" (str "compensate") (
    field "originalCommandId" (str id) (
      field "compensatingCommandId" (str compensating_id)
        (field "reason" (str reason) (field "actorId" (str by) end))))

module _ {W : Type 0} (host : Host W) where
  -- the staging of the bytes under their hash, and the payload that names it
  unfoldable pub stage_bytes : Fields → List ℕ → Action W Fields
  unfolding get_field set_field
  stage_bytes payload bytes =
      let claimed = claimed_hash (get_field payload "contentHash") in
      let actual = host.sha256 bytes in
      if claimed == actual
      then (do
        _ ← call (host.write_staged actual bytes)
        pure (set_field (set_field payload "content" (str actual)) "contentHash" (str actual)))
      else throw_error (content_hash_mismatch (or_missing claimed) actual)

  unfoldable pub stage_payload : Bool → Fields → Option (List ℕ) → Action W Fields
  unfolding stage_bytes
  stage_payload true payload (some bytes) = stage_bytes payload bytes
  stage_payload _ payload _ = pure payload

  -- `proposeMutation`
  unfoldable pub propose_mutation : ProposeMutationInput → Action W Command
  unfolding assert_actor_text stage_payload get_field verb_name propose_command save_command
  propose_mutation i = do
    _ ← assert_actor_text host "proposedBy" i.proposed_by
    there ← staging host
    payload ←
        stage_payload there i.payload (bytes_of (verb_name i.verb) (get_field i.payload "content"))
    id ← draw host.random_uuid
    now ← draw host.now
    let c = propose_command id now i.verb i.target_store payload i.proposed_by
    _ ← save_command host c
    pure c

  -- an optional note of an event
  abbrev noted : Option String → Fields → Fields
  noted none rest = rest
  noted (some note) rest = field "note" (str note) rest

  -- `approveMutation`
  unfoldable pub approve_mutation : (id approved_by : String) → Option String → Action W Command
  unfolding assert_actor_text inspect_stored approve_command save_command record_provenance
      verb_name
  approve_mutation id approved_by note = do
    _ ← assert_actor_text host "approvedBy" approved_by
    c ← inspect_stored host id
    now ← draw host.now
    approved ← check (approve_command now c approved_by note)
    _ ← save_command host approved
    _ ←
        record_provenance host "command_approved" approved_by id "ledger"
          (noted note (field "commandVerb" (str (verb_name c.verb)) end)) none
    pure approved

  -- `rejectMutation`
  unfoldable pub reject_mutation : (id rejected_by reason : String) → Action W Command
  unfolding assert_actor_text inspect_stored reject_command save_command delete_staging_file
      record_provenance verb_name
  reject_mutation id rejected_by reason = do
    _ ← assert_actor_text host "rejectedBy" rejected_by
    c ← inspect_stored host id
    now ← draw host.now
    rejected ← check (reject_command now c rejected_by reason)
    _ ← save_command host rejected
    _ ← delete_staging_file host c
    _ ←
        record_provenance host "command_rejected" rejected_by id "ledger"
          (field "reason" (str reason) (field "commandVerb" (str (verb_name c.verb)) end)) none
    pure rejected

  -- the payload of the compensating command, by default
  abbrev compensating_payload : String → String → Command → Option Fields → Fields
  compensating_payload id reason original (some payload) = payload
  compensating_payload id reason original none = field "originalCommandId" (str id) (
      field "reason" (str reason) (
        field "originalVerb" (str (verb_name original.verb))
          (field "originalPayload" (obj original.payload) end)))

  -- the `try` of `compensateMutation`
  unfoldable pub record_compensation :
      (id by reason : String) → Command → Command → Action W Compensation
  unfolding save_command mark_compensated record_provenance emit_receipt
  record_compensation id by reason original done = do
    _ ← save_command host done
    now ← draw host.now
    compensated ← check (mark_compensated now original done.id by)
    _ ← save_command host compensated
    provenance ←
        record_provenance host "command_compensated" by id "ledger"
          (field "compensatingCommandId" (str done.id) (field "reason" (str reason) end)) none
    receipt ←
        emit_receipt host done (template ("Compensated command " ∷ id ∷ ": " ∷ reason ∷ []))
          (id ∷ []) provenance.id
    pure (record { compensating_command = done; original_command = compensated; receipt = receipt })

  unfoldable pub compensate_committed :
      (id by reason : String) → Option Fields → Command → Action W Compensation
  unfolding propose_command validate_command delete_staging_file mark_committed record_compensation
      orphaned spread verb_name compensation_detail
  compensate_committed id by reason payload original = do
    new_id ← draw host.random_uuid
    proposed_at ← draw host.now
    let proposed =
        propose_command new_id proposed_at CommandVerb.compensate original.target_store
          (spread (field "originalCommandId" (str id) (field "reason" (str reason) end))
            (compensating_payload id reason original payload))
          by
    validated_at ← draw host.now
    validated ← check (validate_command validated_at proposed)
    _ ← delete_staging_file host original
    committed_at ← draw host.now
    done ← check (mark_committed committed_at validated (some by))
    catch (record_compensation id by reason original done)
        (orphaned host id "ledger" done.id (compensation_detail id by reason done.id))

  -- `compensateMutation`, of the command that was found
  unfoldable pub compensate_found :
      (id by reason : String) → Option Fields → Command → Action W Compensation
  unfolding compensate_committed status_name
  compensate_found id by reason payload original =
      if is_committed original.status
      then compensate_committed id by reason payload original
      else throw_error (invalid_state_transition (status_name original.status) "compensated" id)

  -- `compensateMutation`
  unfoldable pub compensate_mutation :
      (id by reason : String) → Option Fields → Action W Compensation
  unfolding assert_actor_text inspect_stored compensate_found
  compensate_mutation id by reason payload = do
    _ ← assert_actor_text host "compensatedBy" by
    original ← inspect_stored host id
    compensate_found id by reason payload original
