-- ===== src/Commands/Validation.antt =====
-- What the five checks of `validateCommand` accept (src/kernel/commands.ts).
use db_cluster.Prelude.{
  String, Bool, true, false, ◌&&◌, ◌||◌, Option, none, some, ◌≡◌, arith, ◌==◌, includes, refl, not,
}
use db_cluster.Json.{
  Value, str, buffer, Fields, get_field, is_string, is_nonempty_string, is_object,
}
use db_cluster.Errors.{Result, ok, err, is_ok}
use db_cluster.Commands.{
  CommandVerb, ingest_artifact, create_entity, update_entity, link_evidence, compensate, verb_name,
  ValidationCheck, Command, valid_stores, validate_command, validate_payload_for_verb, is_proposed,
}

-- The content of an `ingest_artifact` payload: absent, a Buffer or a text.
abbrev pub has_content_shape : Option Value → Bool
has_content_shape none = true
has_content_shape (some (str s)) = true
has_content_shape (some (buffer b)) = true
has_content_shape _ = false

-- What a payload must hold, for each verb.
abbrev pub payload_accepted : CommandVerb → Fields → Bool
payload_accepted create_entity p =
    is_nonempty_string (get_field p "kind") && is_nonempty_string (get_field p "name")
payload_accepted update_entity p =
    is_string (get_field p "entityId") && is_object (get_field p "patch")
payload_accepted ingest_artifact p =
    has_content_shape (get_field p "content")
    && (is_string (get_field p "filename") || is_string (get_field p "artifactId"))
payload_accepted link_evidence p =
    is_string (get_field p "artifactId") && is_string (get_field p "entityId")
payload_accepted compensate p =
    is_string (get_field p "originalCommandId") && is_string (get_field p "reason")
payload_accepted _ p = true

-- What `validateCommand` accepts.
abbrev pub accepted : Command → Bool
accepted c =
    not (verb_name c.verb == "")
    && includes valid_stores c.target_store
    && payload_accepted c.verb c.payload
    && is_proposed c.status

abbrev passes : Result ValidationCheck → Bool
passes (ok k) = k.passed
passes (err e) = false

passes-payload_accepted :
    (verb : CommandVerb) (p : Fields)
    → passes (validate_payload_for_verb verb p) ≡ payload_accepted verb p
unfolding validate_payload_for_verb
passes-payload_accepted ingest_artifact p = ground arith
passes-payload_accepted _ p = ground arith

-- the verdict, over the outcome of the payload check
validated_by :
    (now : String) (c : Command) (r : Result ValidationCheck)
    → validate_payload_for_verb c.verb c.payload ≡ r
    → is_ok (validate_command now c) ≡ (
        not (verb_name c.verb == "")
        && includes valid_stores c.target_store
        && passes r
        && is_proposed c.status)
unfolding validate_command
validated_by now c (err e) h = ground arith
validated_by now c (ok k) h = ground arith

-- `validateCommand` as a Boolean test
pub is_ok-validate_command :
    (now : String) (c : Command) → is_ok (validate_command now c) ≡ accepted c
is_ok-validate_command now c =
    rw (
      validated_by now c (validate_payload_for_verb c.verb c.payload) refl,
      passes-payload_accepted,
    )
