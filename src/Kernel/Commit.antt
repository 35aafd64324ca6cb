-- ===== src/Kernel/Commit.antt =====
-- `commitMutation` of src/kernel/cluster-kernel.ts.
use db_cluster.Prelude.{String, Option, none, some, List, [], ◌∷◌, if◌then◌else◌}
use db_cluster.Json.{str, obj, Fields, field, end, spread}
use db_cluster.Errors.{
  Error, command_not_found, command_not_validated, command_rejected, command_already_terminal,
  invalid_state_transition,
}
use db_cluster.Commands.{
  Command, CommandStatus, proposed, committed, rejected, compensated, status_name, verb_name,
  is_committable, is_committed, mark_committed, valid_transitions,
}
use db_cluster.Ledger.Types.{Receipt}
use db_cluster.Stores.{Host}
use db_cluster.Kernel.Stored.{get_stored}
use db_cluster.Kernel.Action.{Action, draw, on_commands, check, pure, throw_error, catch, ◌>>=◌}
use db_cluster.Kernel.Recording.{
  record_provenance, emit_receipt, orphaned, save_command, assert_actor_text,
}
use db_cluster.Kernel.Arms.{Mutated, mutate_by}

-- `CommitMutationResult`
pub record CommitMutationResult : Type 0 where
  pub command : Command
  pub receipt : Receipt
  pub next_valid_actions : List CommandStatus

-- what is thrown for a command that is not committable, by its status
unfoldable pub commit_refusal : String → Command → CommandStatus → Error
unfolding status_name
commit_refusal id c rejected =
    command_rejected id (elim c.rejection_reason [ none ↦ "Previously rejected" | some r ↦ r ])
commit_refusal id c proposed = command_not_validated id
commit_refusal id c committed = command_already_terminal id (status_name committed)
commit_refusal id c compensated = command_already_terminal id (status_name compensated)
commit_refusal id c status = invalid_state_transition (status_name status) "committed" id

-- `affectedIds[0] ?? commandId`
abbrev pub first_or : List String → String → String
first_or [] id = id
first_or (a ∷ rest) id = a

abbrev previous_fields : Option Fields → Fields
previous_fields none = end
previous_fields (some f) = field "previous" (obj f) end

-- the detail of the orphan event
unfoldable pub orphan_detail : (actor : String) → Command → Fields
unfolding verb_name
orphan_detail actor c =
    field "verb" (str (verb_name c.verb))
      (field "payload" (obj c.payload) (field "actorId" (str actor) end))

module _ {W : Type 0} (host : Host W) where
  -- the check in front of the receipt
  unfoldable pub guard_committed : Command → Action W (Unit {0})
  guard_committed c =
      if is_committed c.status
      then pure tt
      else throw_error (invalid_state_transition (status_name c.status) "committed" c.id)

  -- the `try` behind the mutation
  unfoldable pub record_commit :
      (id actor : String) → Command → Command → Mutated → Action W CommitMutationResult
  unfolding record_provenance save_command emit_receipt valid_transitions verb_name spread
      status_name
  record_commit id actor c done m = do
    provenance ←
        record_provenance host "mutation_committed" actor (first_or m.affected id) c.target_store
          (spread
            (field "commandId" (str id)
              (field "verb" (str (verb_name c.verb)) (field "payload" (obj c.payload) end)))
            (previous_fields m.previous))
          m.parent
    _ ← save_command host done
    _ ← guard_committed done
    receipt ← emit_receipt host done m.summary m.affected provenance.id
    pure (record {
      command = done;
      receipt = receipt;
      next_valid_actions = valid_transitions done.status;
    })

  -- the writes behind the mutation, and their `catch`
  unfoldable pub conclude_commit :
      (id actor : String) → Command → Command → Mutated → Action W CommitMutationResult
  unfolding record_commit orphaned orphan_detail
  conclude_commit id actor c done m =
      catch (record_commit id actor c done m)
        (orphaned host (first_or m.affected id) m.subject_store id (orphan_detail actor c))

  unfoldable pub commit_ready : (id actor : String) → Command → Action W CommitMutationResult
  unfolding mutate_by mark_committed conclude_commit
  commit_ready id actor c = do
    m ← mutate_by host id actor c c.verb
    now ← draw host.now
    done ← check (mark_committed now c (some actor))
    conclude_commit id actor c done m

  -- `commitMutation`, by what `getCommand` gives
  unfoldable pub commit_found : (id actor : String) → Option Command → Action W CommitMutationResult
  unfolding commit_ready commit_refusal
  commit_found id actor none = throw_error (command_not_found id)
  commit_found id actor (some c) =
      if is_committable c.status
      then commit_ready id actor c
      else throw_error (commit_refusal id c c.status)

  -- `commitMutation`
  unfoldable pub commit_mutation : (id actor : String) → Action W CommitMutationResult
  unfolding assert_actor_text get_stored commit_found
  commit_mutation id actor = do
    _ ← assert_actor_text host "actorId" actor
    found ← on_commands (get_stored id)
    commit_found id actor found
