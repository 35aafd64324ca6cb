-- ===== src/Commands/Payload.antt =====
-- `validatePayloadForVerb` and `describeContentShape` of src/kernel/commands.ts
use db_cluster.Prelude.{
  ℕ, suc, String, Bool, true, ◌&&◌, ◌||◌, Option, none, some, List, [], ◌∷◌, ◌==◌, if◌then◌else◌,
}
use db_cluster.Json.{
  Value, null, bool, num, str, buffer, arr, obj, Items, nil, cons, Fields, get_field, keys,
  is_string, is_nonempty_string, is_object, template, join, decimal,
}
use db_cluster.Errors.{Error, Result, ok, err, invalid_content_shape}
use db_cluster.Commands.Types.{
  CommandVerb, ingest_artifact, create_entity, update_entity, link_evidence, compensate,
  ValidationCheck,
}

abbrev count_items : Items → ℕ
count_items nil = 0
count_items (cons x xs) = suc (count_items xs)

-- `keys.slice(0, 3)`
abbrev first_three : List String → List String
first_three (a ∷ b ∷ c ∷ rest) = a ∷ b ∷ c ∷ []
first_three ks = ks

-- the length of `obj.data` if `obj` is the JSON form of a Buffer
buffer_json : Option Value → Option Value → Option ℕ
buffer_json (some (str t)) (some (arr xs)) = if t == "Buffer" then some (count_items xs) else none
buffer_json _ _ = none

-- `describeContentShape`; a Buffer or a string does not come here
unfoldable pub describe_content_shape : Value → String
unfolding buffer_json get_field
describe_content_shape null = "null"
describe_content_shape (arr xs) = template ("Array(" ∷ decimal (count_items xs) ∷ ")" ∷ [])
describe_content_shape (obj f) = elim (buffer_json (get_field f "type") (get_field f "data")) [
  | some n ↦
      template
        ("JSON-roundtripped Buffer object {type:'Buffer', data:[" ∷ decimal n ∷ " bytes]}" ∷ [])
  | none ↦ template ("object (" ∷ join ", " (first_three (keys f)) ∷ "...)" ∷ [])
]
describe_content_shape (bool b) = "boolean"
describe_content_shape (num n) = "number"
describe_content_shape (str s) = "string"
describe_content_shape (buffer b) = "object"

-- `{ name: 'payload_shape', passed, message: passed ? undefined : text }`
abbrev payload_shape : Bool → String → ValidationCheck
payload_shape passed text = record {
  name = "payload_shape";
  passed = passed;
  message = if passed then none else some text;
}

-- the probe of `payload.content`
abbrev pub content_error : Option Value → Option Error
content_error none = none
content_error (some (buffer b)) = none
content_error (some (str s)) = none
content_error (some v) = some (invalid_content_shape (describe_content_shape v))

-- `validatePayloadForVerb`
unfoldable pub validate_payload_for_verb : CommandVerb → Fields → Result ValidationCheck
unfolding get_field
validate_payload_for_verb create_entity p = ok (
    payload_shape
      (is_nonempty_string (get_field p "kind") && is_nonempty_string (get_field p "name"))
      "create_entity requires kind and name")
validate_payload_for_verb update_entity p = ok (
    payload_shape (is_string (get_field p "entityId") && is_object (get_field p "patch"))
      "update_entity requires entityId and patch")
validate_payload_for_verb ingest_artifact p = elim (content_error (get_field p "content")) [
  | some e ↦ err e
  | none ↦ ok (
      payload_shape (is_string (get_field p "filename") || is_string (get_field p "artifactId"))
        "ingest_artifact requires filename or artifactId")
]
validate_payload_for_verb link_evidence p = ok (
    payload_shape (is_string (get_field p "artifactId") && is_string (get_field p "entityId"))
      "link_evidence requires artifactId and entityId")
validate_payload_for_verb compensate p = ok (
    payload_shape (is_string (get_field p "originalCommandId") && is_string (get_field p "reason"))
      "compensate requires originalCommandId and reason")
validate_payload_for_verb _ p =
    ok (record { name = "payload_shape"; passed = true; message = none })
