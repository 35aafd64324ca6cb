-- ===== src/Commands/Lifecycle.antt =====
-- The lifecycle of src/kernel/commands.ts as a step relation: the statuses, and what a command that
-- has come through it carries.
use db_cluster.Prelude.{
  ℕ, suc, ◌+◌, ◌≤◌, String, Bool, true, false, ◌&&◌, Option, none, some, List, ◌≡◌, ◌⊎◌, refl, sym,
  ap, not, ◌==◌, ◌∙◌, arith, all, includes,
}
use db_cluster.Commands.Validation.{accepted, payload_accepted, is_ok-validate_command}
use db_cluster.Errors.{Result, ok, err, is_ok, ◌>>=◌}
use db_cluster.Commands.{
  CommandStatus, proposed, validated, approved, committed, rejected, compensated, ValidationCheck,
  ValidationResult, Command, status_eq, validate_command, validation_checks, approve_command,
  conclude_validation, reject_command, mark_rejected, mark_committed, mark_compensated,
  is_valid_transition, verb_name, is_proposed, valid_stores,
}

-- The guards of the four status changes accept exactly what the transition table lists.
guards-valid_transitions :
    (now by text : String) (memo who : Option String) (c : Command)
    → (is_ok (approve_command now c by memo) ≡ is_valid_transition c.status approved)
      × (is_ok (reject_command now c by text) ≡ is_valid_transition c.status rejected)
      × (is_ok (mark_committed now c who) ≡ is_valid_transition c.status committed)
      × (is_ok (mark_compensated now c text by) ≡ is_valid_transition c.status compensated)
unfolding approve_command reject_command mark_committed mark_compensated is_valid_transition
guards-valid_transitions now by text memo who c = ground arith

-- One operation of the lifecycle; `fail` is `markRejected`, which the kernel calls on a command
-- that is not terminal.
pub data Step (c : Command) : Command → Type 0 where
  validate : (now : String) (d : Command) → validate_command now c ≡ ok d → Step c d
  approve :
      (now by : String) (memo : Option String) (d : Command)
      → approve_command now c by memo ≡ ok d
      → Step c d
  reject : (now by reason : String) (d : Command) → reject_command now c by reason ≡ ok d → Step c d
  commit :
      (now : String) (by : Option String) (d : Command) → mark_committed now c by ≡ ok d → Step c d
  compensate : (now id by : String) (d : Command) → mark_compensated now c id by ≡ ok d → Step c d
  fail :
      (now by reason : String)
      → is_valid_transition c.status rejected ≡ true
      → Step c (mark_rejected now c by reason)

pub data Reach (c : Command) : Command → Type 0 where
  here : Reach c c
  next : {d e : Command} → Reach c d → Step d e → Reach c e

abbrev pub steps : {c d : Command} → Reach c d → ℕ
steps here = 0
steps (next r s) = suc (steps r)

-- the recorded validation is there, is valid, and all its checks passed
abbrev pub passed_validation : Option ValidationResult → Bool
passed_validation none = false
passed_validation (some r) = r.valid && all (λ (k : ValidationCheck). k.passed) r.checks

abbrev is_present : Option String → Bool
is_present none = false
is_present (some text) = true

-- the statuses behind a passed validation
abbrev pub is_past_validation : CommandStatus → Bool
is_past_validation proposed = false
is_past_validation rejected = false
is_past_validation _ = true

-- What `d`, which came from the proposal `c`, carries.
pub record IsSound (c d : Command) : Type 0 where
  pub same_id : d.id ≡ c.id
  pub same_verb : d.verb ≡ c.verb
  pub same_store : d.target_store ≡ c.target_store
  pub same_payload : d.payload ≡ c.payload
  pub same_proposer : d.proposed_by ≡ c.proposed_by
  pub passed : is_past_validation d.status ≡ true → passed_validation d.validation ≡ true
  pub approver : d.status ≡ approved → is_present d.approved_by ≡ true
  pub committer :
      (d.status ≡ committed) ⊎ (d.status ≡ compensated) → is_present d.committed_by ≡ true
  pub reason : d.status ≡ rejected → is_present d.rejection_reason ≡ true
  pub correction : d.status ≡ compensated → is_present d.compensating_command_id ≡ true

-- `d` is `c` with a passed validation recorded
abbrev Validates : Command → Command → Type 0
Validates c d =
    (r : ValidationResult) × (d ≡ record c { status = validated; validation = some r })
    × (r.valid ≡ true)
    × (all (λ (k : ValidationCheck). k.passed) r.checks ≡ true)

conclude-Validates :
    (now : String) (c : Command) (r : Result (List ValidationCheck)) (d : Command)
    → (r >>= conclude_validation now c) ≡ ok d
    → Validates c d
unfolding conclude_validation
conclude-Validates now c (err e) d h = cc
conclude-Validates now c (ok checks) d h = (
  record {
    valid = all (λ (k : ValidationCheck). k.passed) checks;
    checks = checks;
    validated_at = now;
  },
  ground arith,
  ground arith,
  ground arith,
)

pub validate_command-Validates :
    (now : String) (c d : Command) → validate_command now c ≡ ok d → Validates c d
unfolding validate_command
validate_command-Validates now c d h = conclude-Validates now c (validation_checks c) d h

IsSound-validate : {c d e : Command} → IsSound c d → Validates d e → IsSound c e
IsSound-validate s (r, e, valid, passed) = ground arith

IsSound-Step : {c d e : Command} → IsSound c d → Step d e → IsSound c e
unfolding approve_command reject_command mark_rejected mark_committed mark_compensated
    is_valid_transition
IsSound-Step {d} s (validate now e h) = IsSound-validate s (validate_command-Validates now d e h)
IsSound-Step s (approve now by memo e h) = ground arith
IsSound-Step s (reject now by reason e h) = ground arith
IsSound-Step s (commit now by e h) = ground arith
IsSound-Step s (compensate now id by e h) = ground arith
IsSound-Step s (fail now by reason h) = ground arith

-- Whatever happens to a proposal, it keeps its id, verb, store, payload and proposer; it is validated,
-- approved, committed or compensated only behind a validation that passed every check; an approved
-- command names its approver, a committed or compensated one its committer, a rejected one its
-- reason, and a compensated one the command that compensates it.
pub Reach-IsSound : {c d : Command} → c.status ≡ proposed → Reach c d → IsSound c d
Reach-IsSound h here = ground arith
Reach-IsSound h (next r s) = IsSound-Step (Reach-IsSound h r) s

-- how far a status is along the lifecycle
abbrev pub rank : CommandStatus → ℕ
rank proposed = 0
rank validated = 1
rank approved = 2
rank committed = 3
rank rejected = 4
rank compensated = 4

rank-transition :
    (from to : CommandStatus) → is_valid_transition from to ≡ true → rank from + 1 ≤ rank to
unfolding is_valid_transition
rank-transition from to h = ground arith

last_true : (a b c d : Bool) → (a && b && c && d) ≡ true → d ≡ true
last_true a b c d h = ground arith

is_proposed-eq : (s : CommandStatus) → is_proposed s ≡ true → s ≡ proposed
is_proposed-eq s h = ground arith

proposed_of_accepted : (c : Command) → accepted c ≡ true → c.status ≡ proposed
proposed_of_accepted c h = is_proposed-eq c.status (
    last_true (not (verb_name c.verb == "")) (includes valid_stores c.target_store)
      (payload_accepted c.verb c.payload) (is_proposed c.status) h)

validate_command-proposed :
    (now : String) (c d : Command) → validate_command now c ≡ ok d → c.status ≡ proposed
validate_command-proposed now c d h =
    proposed_of_accepted c (sym (is_ok-validate_command now c) ∙ ap is_ok h)

-- Every operation of the lifecycle moves along the transition table.
Step-valid_transition : {c d : Command} → Step c d → is_valid_transition c.status d.status ≡ true
unfolding approve_command reject_command mark_rejected mark_committed mark_compensated
    is_valid_transition
Step-valid_transition {c} (validate now d h) =
    let (r, e, valid, passed) = validate_command-Validates now c d h in
    let p = validate_command-proposed now c d h in ground arith
Step-valid_transition (approve now by memo d h) = ground arith
Step-valid_transition (reject now by reason d h) = ground arith
Step-valid_transition (commit now by d h) = ground arith
Step-valid_transition (compensate now id by d h) = ground arith
Step-valid_transition (fail now by reason h) = h

rank-Reach : {c d : Command} (r : Reach c d) → rank c.status + steps r ≤ rank d.status
rank-Reach here = omega arith
rank-Reach {c} {d} (next {d = m} r s) =
    omega (arith, rank-Reach r, rank-transition m.status d.status (Step-valid_transition s))

rank_bounded : (s : CommandStatus) → rank s ≤ 4
rank_bounded s = ground arith

-- The lifecycle ends: from any command, at most four operations succeed in a row.
steps_bounded : {c d : Command} (r : Reach c d) → steps r ≤ 4
steps_bounded {d} r = omega (arith, rank-Reach r, rank_bounded d.status)

no_transition :
    (from to : CommandStatus)
    → (from ≡ rejected) ⊎ (from ≡ compensated)
    → ¬ (is_valid_transition from to ≡ true)
unfolding is_valid_transition
no_transition from to h = ground arith

-- A rejected or compensated command stays as it is for ever.
terminal_absorbs :
    {c d : Command} → (c.status ≡ rejected) ⊎ (c.status ≡ compensated) → Reach c d → d ≡ c
terminal_absorbs h here = refl
terminal_absorbs {c} {d} h (next {d = m} r s) =
    let same = terminal_absorbs h r in
    absurd (no_transition m.status d.status (rw same h) (Step-valid_transition s))
