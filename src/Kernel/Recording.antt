-- ===== src/Kernel/Recording.antt =====
-- src/kernel/provenance.ts, src/kernel/receipts.ts, and what the mutators of
-- src/kernel/cluster-kernel.ts share: the reads and writes of commands, the orphan event, the staged
-- content.
use db_cluster.Prelude.{String, Bool, true, false, Option, none, some, List, ◌==◌, if◌then◌else◌}
use db_cluster.Json.{Value, str, Fields, field, end, get_field, spread}
use db_cluster.Errors.{Error, ok, receipt_failed, assert_actor, message, name}
use db_cluster.Commands.{Command, verb_name}
use db_cluster.Ledger.Types.{Event, Receipt}
use db_cluster.Stores.{Host}
use db_cluster.Kernel.Stored.{CommandStore, on_disk, in_memory, save_stored, inspect_command}
use db_cluster.Kernel.Action.{Action, call, on_commands, check, pure, throw_error, catch, ◌>>=◌}

module _ {W : Type 0} (host : Host W) where
  -- `recordProvenance`
  unfoldable pub record_provenance :
      (action actor_id subject_id subject_store : String) → Fields → Option String → Action W Event
  record_provenance action actor_id subject_id subject_store detail parent = call (
      host.ledger_append (record {
        action = action;
        actor_id = actor_id;
        subject_id = subject_id;
        subject_store = subject_store;
        detail = detail;
        parent_event_id = parent;
      }))

  -- `emitReceipt`
  unfoldable pub emit_receipt :
      Command → String → List String → (provenance_event_id : String) → Action W Receipt
  emit_receipt command summary affected provenance_event_id = call (
      host.ledger_append_receipt (record {
        command_id = command.id;
        result_summary = summary;
        affected_ids = affected;
        provenance_event_id = provenance_event_id;
      }))

  -- `redactErrorMessage` of an error
  unfoldable pub redact_error_message : Error → String
  unfolding message name
  redact_error_message e =
      let raw = message e in host.scrub_paths (if raw == "" then name host.name_of e else raw)

  -- `recordOrphanMutation`; where the ledger fails, its error goes to the log
  unfoldable pub record_orphan_mutation :
      (subject_id subject_store command_id : String) → Error → Fields → Action W (Unit {0})
  unfolding record_provenance redact_error_message name
  record_orphan_mutation subject_id subject_store command_id cause detail =
      catch
        (do
          _ ←
              record_provenance "mutation_orphaned" "kernel" subject_id subject_store
                (spread detail (
                  field "commandId" (str command_id) (
                    field "error" (str (redact_error_message cause))
                      (field "errorName" (str (name host.name_of cause)) end))))
                none
          pure tt)
        (λ e. pure tt)

  -- the `catch` behind a mutation: the orphan event, and `ReceiptFailedError`
  unfoldable pub orphaned :
      {A : Type 0} → (subject_id subject_store command_id : String) → Fields → Error → Action W A
  unfolding record_orphan_mutation
  orphaned subject_id subject_store command_id detail cause = do
    _ ← record_orphan_mutation subject_id subject_store command_id cause detail
    throw_error (receipt_failed subject_id command_id cause)

  -- `getCommand`, and `NotFoundError` where there is none
  unfoldable pub inspect_stored : String → Action W Command
  unfolding inspect_command
  inspect_stored id = on_commands (inspect_command id)

  -- `saveCommand`
  unfoldable pub save_command : Command → Action W (Unit {0})
  unfolding save_stored
  save_command c = on_commands (save_stored c)

  -- `assertActor` of a text
  unfoldable pub assert_actor_text : (role actor : String) → Action W (Unit {0})
  unfolding assert_actor
  assert_actor_text role actor = check (assert_actor role (some (str actor)))

  -- `getStagingDir`: whether there is a data directory
  abbrev pub has_staging : CommandStore → Bool
  has_staging (on_disk d) = true
  has_staging (in_memory cs) = false

  unfoldable pub staging : Action W Bool
  staging s = (ok (has_staging s.commands), s)

  -- the removal of a staged file; what it throws is dropped
  unfoldable pub sweep_staged : String → Action W (Unit {0})
  sweep_staged hash = catch (call (host.remove_staged hash)) (λ e. pure tt)

  unfoldable pub sweep_hash : Bool → Option Value → Action W (Unit {0})
  sweep_hash true (some (str hash)) = if hash == "" then pure tt else sweep_staged hash
  sweep_hash _ _ = pure tt

  -- `deleteStagingFile` for the payload of an `ingest_artifact`, and nothing for another command
  unfoldable pub delete_staging_file : Command → Action W (Unit {0})
  unfolding get_field verb_name
  delete_staging_file c =
      if verb_name c.verb == "ingest_artifact"
      then (do there ← staging; sweep_hash there (get_field c.payload "contentHash"))
      else pure tt
