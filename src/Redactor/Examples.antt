-- ===== src/Redactor/Examples.antt =====
-- The redactor on concrete records.
use db_cluster.Prelude.{String, List, [], ◌∷◌, ◌≡◌, refl}
use db_cluster.Json.{str, num, obj, Fields, end, field, set_field}
use db_cluster.Policy.{RedactionRule, entity_attributes, command_payload, hash, mask}
use db_cluster.Redactor.{rule_for, redact_entity}
use db_cluster.Redactor.Blind.{redact_entity-blind}

abbrev rules : List RedactionRule
rules =
    record { id = "r1"; target = entity_attributes; behavior = mask; reason = "private" }
    ∷ record { id = "r2"; target = command_payload; behavior = hash; reason = "private" }
    ∷ []

abbrev person : Fields
person =
    field "id" (str "ent_1") (
      field "ssn" (str "123-45-6789")
        (field "attributes" (obj end) (field "version" (num "3") end)))

abbrev attributes_with : String → Fields
attributes_with s = field "city" (str s) (field "age" (num "41") end)

redact_entity-blind_example :
    redact_entity (set_field person "attributes" (obj (attributes_with "Oslo"))) rules
    ≡ redact_entity (set_field person "attributes" (obj (attributes_with "Rome"))) rules
unfolding rule_for
redact_entity-blind_example =
    redact_entity-blind person (attributes_with "Oslo") (attributes_with "Rome") rules
      (record { id = "r1"; target = entity_attributes; behavior = mask; reason = "private" }) refl
      refl
