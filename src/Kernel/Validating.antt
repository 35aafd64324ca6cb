-- ===== src/Kernel/Validating.antt =====
-- `validateMutation` of src/kernel/cluster-kernel.ts.
use db_cluster.Prelude.{String, Bool, if◌then◌else◌}
use db_cluster.Errors.{Error, Result, ok, err, command_not_validated, command_rejected, message}
use db_cluster.Commands.{
  Command, CommandStatus, proposed, status_eq, validate_command, mark_rejected,
}
use db_cluster.Kernel.Stored.{CommandStore, save_stored, inspect_command}

-- what a save that returns, or throws, makes of the outcome
abbrev pub saved : Result Command → Result (Unit {0}) × CommandStore → Result Command × CommandStore
saved r (ok u, s) = (r, s)
saved r (err e, s) = (err e, s)

-- the `catch` of `validateMutation`: the command is rejected with the text of the error
unfoldable pub reject_invalid :
    (later id : String) → Command → Error → CommandStore → Result Command × CommandStore
unfolding save_stored mark_rejected message
reject_invalid later id c e s =
    saved (err (command_rejected id (message e)))
      (save_stored (mark_rejected later c "kernel:validator" (message e)) s)

-- the save inside the `try`
unfoldable pub save_valid :
    (later id : String)
    → Command
    → Command
    → Result (Unit {0}) × CommandStore
    → Result Command × CommandStore
unfolding reject_invalid
save_valid later id c v (ok u, s) = (ok v, s)
save_valid later id c v (err e, s) = reject_invalid later id c e s

-- the `try` of `validateMutation`, by what `validateCommand` gives
unfoldable pub conclude_mutation :
    (later id : String) → Command → CommandStore → Result Command → Result Command × CommandStore
unfolding save_valid reject_invalid save_stored
conclude_mutation later id c s (ok v) = save_valid later id c v (save_stored v s)
conclude_mutation later id c s (err e) = reject_invalid later id c e s

abbrev pub is_proposed : CommandStatus → Bool
is_proposed status = status_eq.beq status proposed

-- `validateMutation`, by what `getCommand` gives; the clock is read for the validation, and again where
-- the command is rejected
unfoldable pub validate_found :
    (now later id : String) → Result Command × CommandStore → Result Command × CommandStore
unfolding conclude_mutation validate_command
validate_found now later id (err e, s) = (err e, s)
validate_found now later id (ok c, s) =
    if is_proposed c.status
    then conclude_mutation later id c s (validate_command now c)
    else (err (command_not_validated id), s)

-- `validateMutation`
unfoldable pub validate_mutation :
    (now later id : String) → CommandStore → Result Command × CommandStore
unfolding validate_found inspect_command
validate_mutation now later id s = validate_found now later id (inspect_command id s)
