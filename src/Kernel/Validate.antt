-- ===== src/Kernel/Validate.antt =====
-- What `validateMutation` makes of a proposed command.
use db_cluster.Prelude.{
  String, Bool, true, false, some, List, [], ◌∷◌, ◌==◌, ◌≡◌, refl, sym, subst, ap, ◌∙◌, arith,
  if◌then◌else◌,
}
use db_cluster.Errors.{◌>>=◌, Error, Result, ok, err, is_ok, message}
use db_cluster.Commands.{
  Command, ValidationCheck, proposed, validated, rejected, validate_command, conclude_validation,
  validation_checks, mark_rejected,
}
use db_cluster.Commands.Validation.{accepted, is_ok-validate_command}
use db_cluster.Queue.{get_command}
use db_cluster.Queue.Laws.{get-set_command}
use db_cluster.Kernel.Stored.{CommandStore, in_memory, get_stored, save_stored, inspect_command}
use db_cluster.Kernel.Validating.{
  conclude_mutation, reject_invalid, save_valid, is_proposed, validate_found, validate_mutation,
}

get_command-id :
    (cs : List Command) (id : String) (c : Command)
    → get_command cs id ≡ some c
    → (c.id == id) ≡ true
get_command-id [] id c h = absurd (cc)
get_command-id (d ∷ ds) id c h = ground (arith, get_command-id ds id c)

conclude_validation-kept :
    (now : String) (c v : Command) (checks : List ValidationCheck)
    → conclude_validation now c checks ≡ ok v
    → (v.id ≡ c.id) × (v.status ≡ validated)
unfolding conclude_validation
conclude_validation-kept now c v checks h = (ground arith, ground arith)

checked-kept :
    (now : String) (c v : Command) (r : Result (List ValidationCheck))
    → (do checks ← r; conclude_validation now c checks) ≡ ok v
    → (v.id ≡ c.id) × (v.status ≡ validated)
checked-kept now c v (ok checks) h = conclude_validation-kept now c v checks h
checked-kept now c v (err e) h = absurd (cc)

validate_command-kept :
    (now : String) (c v : Command)
    → validate_command now c ≡ ok v
    → (v.id ≡ c.id) × (v.status ≡ validated)
unfolding validate_command
validate_command-kept now c v h = checked-kept now c v (validation_checks c) h

-- the command is stored under the id
abbrev pub IsStored : String → Command → CommandStore → Type 0
IsStored id d s = (get_stored id s).0 ≡ ok (some d)

save_stored-IsStored :
    (cs : List Command) (id : String) (v : Command)
    → (v.id == id) ≡ true
    → IsStored id v (save_stored v (in_memory cs)).1
unfolding get_stored save_stored
save_stored-IsStored cs id v h =
    ap ok (get-set_command cs v id ∙ ap (λ b. if b then some v else get_command cs id) h)

-- Under the id stands a command that is validated where `good` holds and rejected elsewhere, and the
-- operation returned where `good` holds and threw elsewhere.
abbrev pub Verdict : String → Bool → Result Command × CommandStore → Type 0
Verdict id good (r, s) =
    (d : Command) × IsStored id d s
    × (d.status ≡ (if good then validated else rejected))
    × (is_ok r ≡ good)

reject_invalid-Verdict :
    (later id : String) (c : Command) (e : Error) (cs : List Command)
    → (c.id == id) ≡ true
    → Verdict id false (reject_invalid later id c e (in_memory cs))
unfolding reject_invalid save_stored mark_rejected
reject_invalid-Verdict later id c e cs h =
    let d = mark_rejected later c "kernel:validator" (message e) in
    (d, save_stored-IsStored cs id d h, refl, refl)

conclude_mutation-Verdict :
    (now later id : String) (c : Command) (cs : List Command) (r : Result Command)
    → (c.id == id) ≡ true
    → validate_command now c ≡ r
    → Verdict id (is_ok r) (conclude_mutation later id c (in_memory cs) r)
unfolding conclude_mutation save_valid save_stored
conclude_mutation-Verdict now later id c cs (ok v) h e =
    let (same, done) = validate_command-kept now c v e in
    (v, save_stored-IsStored cs id v (subst (λ i. (i == id) ≡ true) (sym same) h), done, refl)
conclude_mutation-Verdict now later id c cs (err x) h e = reject_invalid-Verdict later id c x cs h

inspect_command-found :
    (cs : List Command) (id : String) (c : Command)
    → get_command cs id ≡ some c
    → inspect_command id (in_memory cs) ≡ (ok c, in_memory cs)
unfolding inspect_command get_stored
inspect_command-found cs id c h = rw h refl

proposed_passes : (c : Command) → c.status ≡ proposed → is_proposed c.status ≡ true
proposed_passes c p = ap is_proposed p

validate_found-Verdict :
    (now later id : String) (c : Command) (cs : List Command)
    → (c.id == id) ≡ true
    → c.status ≡ proposed
    → Verdict id (accepted c) (validate_found now later id (ok c, in_memory cs))
unfolding validate_found
validate_found-Verdict now later id c cs h p =
    subst (λ b. Verdict id b (validate_found now later id (ok c, in_memory cs)))
      (is_ok-validate_command now c)
      (rw (proposed_passes c p)
        (conclude_mutation-Verdict now later id c cs (validate_command now c) h refl))

-- `validateMutation` of a proposed command that the kernel holds in memory returns exactly where the
-- command is accepted; it is stored as validated then, and as rejected where the operation throws.
pub validate_mutation-Verdict :
    (now later id : String) (c : Command) (cs : List Command)
    → get_command cs id ≡ some c
    → c.status ≡ proposed
    → Verdict id (accepted c) (validate_mutation now later id (in_memory cs))
unfolding validate_mutation
validate_mutation-Verdict now later id c cs h p =
    subst (λ x. Verdict id (accepted c) (validate_found now later id x))
      (sym (inspect_command-found cs id c h))
      (validate_found-Verdict now later id c cs (get_command-id cs id c h) p)
