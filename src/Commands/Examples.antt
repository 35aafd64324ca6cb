-- ===== src/Commands/Examples.antt =====
-- One proposal through its lifecycle, and the theorems about the lifecycle at it.
use db_cluster.Prelude.{true, ◌↔◌, some, ◌≡◌, refl}
use db_cluster.Json.{end, field, str, get_field}
use db_cluster.Errors.{Result, ok, err, is_ok}
use db_cluster.Commands.{
  Command, create_entity, propose_command, validate_command, validate_payload_for_verb, verb_name,
  approve_command, mark_committed, mark_compensated,
}
use db_cluster.Commands.Accepted.{IsAccepted, validate_command-IsAccepted}
use db_cluster.Commands.Lifecycle.{
  Reach, here, next, IsSound, validate, approve, commit, compensate, Reach-IsSound,
}

abbrev person : Command
unfolding propose_command
person =
    propose_command "c1" "t0" create_entity "canonical"
      (field "kind" (str "Person") (field "name" (str "Alice") end)) "analyst:1"

-- the command of a result that is there
abbrev result_of : Command → Result Command → Command
result_of c (ok d) = d
result_of c (err e) = c

abbrev checked : Command
unfolding validate_command validate_payload_for_verb get_field verb_name propose_command
checked = result_of person (validate_command "t1" person)

abbrev signed : Command
unfolding approve_command checked
signed = result_of checked (approve_command "t2" checked "admin" (some "lgtm"))

abbrev done : Command
unfolding mark_committed signed
done = result_of signed (mark_committed "t3" signed (some "system"))

abbrev undone : Command
unfolding mark_compensated done
undone = result_of done (mark_compensated "t4" done "c2" "ops")

life : Reach person undone
unfolding undone
life =
    next
      (next
        (next (next here (validate "t1" checked refl))
          (approve "t2" "admin" (some "lgtm") signed refl))
        (commit "t3" (some "system") done refl))
      (compensate "t4" "c2" "ops" undone refl)

validate_command-IsAccepted_example :
    (is_ok (validate_command "t1" person) ≡ true) ↔ IsAccepted person
validate_command-IsAccepted_example = validate_command-IsAccepted "t1" person

Reach-IsSound_example : IsSound person undone
unfolding propose_command
Reach-IsSound_example = Reach-IsSound refl life
