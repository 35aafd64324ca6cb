-- ===== src/Commands.antt =====
-- src/types/command.ts and src/kernel/commands.ts: the command record, its lifecycle operations
-- and the validation of a proposed command. `randomUUID()` and `new Date().toISOString()` are the
-- arguments `id` and `now`.
mod Types
mod Payload
pub mod Lifecycle
pub mod Validation
pub mod Accepted
mod Examples
pub use Types.{
  CommandVerb, ingest_artifact, create_entity, update_entity, link_evidence, propose_mutation,
  reindex, compensate, unknown, CommandStatus, proposed, validated, approved, committed, rejected,
  compensated, status_eq, status_beq_iff, ValidationCheck, ValidationResult, Command,
}
unfoldable pub use Types.{verb_name, status_name}
pub use Payload.{content_error}
unfoldable pub use Payload.{describe_content_shape, validate_payload_for_verb}
use db_cluster.Prelude.{
  String, Bool, true, false, not, ◌&&◌, ◌||◌, Option, none, some, List, [], ◌∷◌, ◌==◌, map, all,
  filter, includes, has, if◌then◌else◌,
}
use db_cluster.Json.{Fields, template, join}
use db_cluster.Errors.{Result, ok, err, ◌>>=◌, command_validation_failed, invalid_state_transition}

-- `proposeCommand`
unfoldable pub propose_command :
    (id now : String) → CommandVerb → String → Fields → String → Command
propose_command id now verb target_store payload proposed_by = record {
  id = id;
  verb = verb;
  target_store = target_store;
  payload = payload;
  proposed_at = now;
  proposed_by = proposed_by;
  status = proposed;
  validation = none;
  rejection_reason = none;
  rejected_by = none;
  rejected_at = none;
  approved_by = none;
  approved_at = none;
  approval_note = none;
  committed_at = none;
  committed_by = none;
  compensated_by = none;
  compensated_at = none;
  compensating_command_id = none;
}

abbrev pub valid_stores : List String
valid_stores = "canonical" ∷ "artifact" ∷ "index" ∷ "ledger" ∷ []

-- `passed ? undefined : text`
abbrev pub check : String → Bool → String → ValidationCheck
check name passed text = record {
  name = name;
  passed = passed;
  message = if passed then none else some text;
}

abbrev verb_present : CommandVerb → Bool
verb_present verb = not (verb_name verb == "")

abbrev is_proposed : CommandStatus → Bool
is_proposed proposed = true
is_proposed _ = false

-- The five checks of `validateCommand`; the fourth may throw. The payload is a
-- `Record<string, unknown>` by its type, so the third always passes.
unfoldable pub validation_checks : Command → Result (List ValidationCheck)
validation_checks c = do
  payload_check ← validate_payload_for_verb c.verb c.payload
  ok (
      check "verb_present" (verb_present c.verb) "Command missing verb"
      ∷ check "target_store_valid" (includes valid_stores c.target_store)
          (template ("Invalid target store: " ∷ c.target_store ∷ []))
      ∷ check "payload_present" true "Command missing payload"
      ∷ payload_check
      ∷ check "status_is_proposed" (is_proposed c.status)
          (template ("Cannot validate command in status: " ∷ status_name c.status ∷ []))
      ∷ [])

abbrev pub failed : ValidationCheck → Bool
failed c = not c.passed

-- `undefined` joins as the empty text
abbrev message_text : ValidationCheck → String
message_text c = elim c.message [ none ↦ "" | some text ↦ text ]

-- the end of `validateCommand`: the verdict over the checks
unfoldable pub conclude_validation :
    (now : String) → Command → List ValidationCheck → Result Command
conclude_validation now c checks =
    let valid = all (λ (k : ValidationCheck). k.passed) checks in
    let result : ValidationResult = record { valid = valid; checks = checks; validated_at = now } in
    if valid
    then ok (record c { status = validated; validation = some result })
    else err (command_validation_failed (join "; " (map message_text (filter failed checks))))

-- `validateCommand`
unfoldable pub validate_command : (now : String) → Command → Result Command
unfolding validation_checks conclude_validation
validate_command now c = do checks ← validation_checks c; conclude_validation now c checks

-- `assertValidPayload`; `id` and `now` are drawn for the throw-away command
unfoldable pub assert_valid_payload :
    (id now : String) → CommandVerb → String → Fields → String → Result (Unit {0})
unfolding propose_command validate_command
assert_valid_payload id now verb target_store payload proposed_by = do
  _ ← validate_command now (propose_command id now verb target_store payload proposed_by)
  ok tt

-- `validTransitions`
unfoldable pub valid_transitions : CommandStatus → List CommandStatus
valid_transitions proposed = validated ∷ rejected ∷ []
valid_transitions validated = approved ∷ committed ∷ rejected ∷ []
valid_transitions approved = committed ∷ rejected ∷ []
valid_transitions committed = compensated ∷ []
valid_transitions rejected = []
valid_transitions compensated = []

-- `isValidTransition`
unfoldable pub is_valid_transition : CommandStatus → CommandStatus → Bool
unfolding valid_transitions
is_valid_transition from to = has (valid_transitions from) to

abbrev bad_transition {ℓ} : {A : Type ℓ} → Command → CommandStatus → Result A
bad_transition c to = err (invalid_state_transition (status_name c.status) (status_name to) c.id)

abbrev is_validated : CommandStatus → Bool
is_validated validated = true
is_validated _ = false

-- `approveCommand`
unfoldable pub approve_command :
    (now : String) → Command → (by : String) → Option String → Result Command
approve_command now c by note =
    if is_validated c.status
    then ok (record c {
      status = approved;
      approved_by = some by;
      approved_at = some now;
      approval_note = note;
    })
    else bad_transition c approved

-- `markRejected`: from any status
unfoldable pub mark_rejected : (now : String) → Command → (by reason : String) → Command
mark_rejected now c by reason = record c {
  status = rejected;
  rejected_by = some by;
  rejected_at = some now;
  rejection_reason = some reason;
}

-- `rejectCommand`
unfoldable pub reject_command : (now : String) → Command → (by reason : String) → Result Command
unfolding is_valid_transition
reject_command now c by reason =
    if is_valid_transition c.status rejected
    then ok (record c {
      status = rejected;
      rejected_by = some by;
      rejected_at = some now;
      rejection_reason = some reason;
    })
    else bad_transition c rejected

abbrev pub is_committable : CommandStatus → Bool
is_committable validated = true
is_committable approved = true
is_committable _ = false

-- `markCommitted`; `committedBy ?? command.proposedBy`
unfoldable pub mark_committed : (now : String) → Command → Option String → Result Command
mark_committed now c by =
    if is_committable c.status
    then ok (record c {
      status = committed;
      committed_at = some now;
      committed_by = some (elim by [ none ↦ c.proposed_by | some b ↦ b ]);
    })
    else bad_transition c committed

abbrev pub is_committed : CommandStatus → Bool
is_committed committed = true
is_committed _ = false

-- `markCompensated`
unfoldable pub mark_compensated :
    (now : String) → Command → (compensating_command_id by : String) → Result Command
mark_compensated now c compensating_command_id by =
    if is_committed c.status
    then ok (record c {
      status = compensated;
      compensating_command_id = some compensating_command_id;
      compensated_by = some by;
      compensated_at = some now;
    })
    else bad_transition c compensated
