-- ===== src/Redactor.antt =====
-- src/policy/redactor.ts: what is stripped from the records that leave the cluster. A record is the
-- object that the source walks with `Object.keys`, so a field that its type does not name is there too.
mod Allowlist
pub mod Blind
mod Examples
unfoldable pub use Allowlist.{
  apply_allowlist, is_redacted_marker, redacted_marker, infer_marker_kind,
}
pub use Allowlist.{
  unknown_field, preserved_fields_artifact, preserved_fields_entity, preserved_fields_command,
  preserved_fields_receipt, preserved_fields_provenance_event, preserved_fields_index_record,
}
use Prim.Native.Char.{code}
use Prim.Native.String
use db_cluster.Prelude.{
  ℕ, suc, String, Bool, true, false, Option, none, some, List, [], ◌∷◌, ◌==◌, find, nat_beq, length,
  leb, if◌then◌else◌,
}
use db_cluster.Json.{
  Value, str, arr, obj, Items, nil, cons, Fields, end, field, get_field, set_field, delete_field,
  keys, template, decimal,
}
use db_cluster.Policy.{
  RedactionRule, Target, target_beq, artifact_content, entity_attributes, command_payload,
  receipt_details, provenance_actors, index_source_uri, Behavior, strip, mask, summarize, hash,
}

-- `REDACTED`
abbrev pub redacted : Value
redacted = str "[REDACTED]"

-- `REDACTED_HASH_PREFIX`
abbrev pub redacted_hash_prefix : String
redacted_hash_prefix = "sha256:redacted:"

-- `rules.filter((r) => r.target === target)[0]`
unfoldable pub rule_for : Target → List RedactionRule → Option RedactionRule
rule_for target rules = find (λ (r : RedactionRule). target_beq r.target target) rules

-- the fields of `record[key]`, which is an object by its type
unfoldable pub object_at : Fields → String → Fields
object_at fields key = elim (get_field fields key) [ some (obj f) ↦ f | _ ↦ end ]

-- the text of `record[key]`, which is a string by its type
unfoldable pub text_at : Fields → String → String
text_at fields key = elim (get_field fields key) [ some (str s) ↦ s | _ ↦ "" ]

-- the items of `record[key]`, which is an array by its type
unfoldable pub items_at : Fields → String → Items
items_at fields key = elim (get_field fields key) [ some (arr xs) ↦ xs | _ ↦ nil ]

-- every key with `REDACTED` for its value
unfoldable pub mask_keys : List String → Fields
mask_keys [] = end
mask_keys (k ∷ ks) = field k redacted (mask_keys ks)

unfoldable pub count_items : Items → ℕ
count_items nil = 0
count_items (cons x xs) = suc (count_items xs)

-- `xs.map(() => REDACTED)`
unfoldable pub mask_items : ℕ → Items
mask_items ℕ.zero = nil
mask_items (suc n) = cons redacted (mask_items n)

-- the part of a text behind its first `/`, up to the next one
before_slash : String → String
before_slash String.[] = ""
before_slash (String.◌∷◌ c s) =
    let rest = before_slash s in if nat_beq (code c) b'/' then "" else String.◌∷◌ c rest

-- `text.split('/')[1] ?? 'bin'`
unfoldable pub second_part : String → String
unfolding before_slash
second_part String.[] = "bin"
second_part (String.◌∷◌ c s) =
    let rest = second_part s in if nat_beq (code c) b'/' then before_slash s else rest

-- the object with the one field
abbrev single : String → Value → Value
single key v = obj (field key v end)

abbrev by_behavior : Behavior → Fields → Fields → Fields
by_behavior mask artifact baseline =
    set_field (set_field baseline "storagePath" redacted) "filename"
      (str (template ("[REDACTED]." ∷ second_part (text_at artifact "mimeType") ∷ [])))
by_behavior hash artifact baseline =
    set_field baseline "storagePath"
      (str (template (redacted_hash_prefix ∷ text_at artifact "contentHash" ∷ [])))
by_behavior _ artifact baseline = set_field baseline "storagePath" redacted

-- `redactArtifact`
unfoldable pub redact_artifact : Fields → List RedactionRule → Fields
unfolding rule_for apply_allowlist text_at second_part get_field set_field
redact_artifact artifact rules =
    let baseline = apply_allowlist preserved_fields_artifact artifact in
    elim (rule_for artifact_content rules) [
      | none ↦ baseline
      | some rule ↦ by_behavior rule.behavior artifact baseline
    ]

-- the attributes that are left, by their keys
unfoldable pub redacted_attributes : Behavior → List String → Value
unfolding mask_keys
redacted_attributes mask ks = obj (mask_keys ks)
redacted_attributes summarize ks =
    single "_summary" (str (template (decimal (length ks) ∷ " attributes redacted" ∷ [])))
redacted_attributes hash ks =
    single "_hash" (str (template (redacted_hash_prefix ∷ decimal (length ks) ∷ [])))
redacted_attributes _ ks = obj end

-- `redactEntity`
unfoldable pub redact_entity : Fields → List RedactionRule → Fields
unfolding rule_for apply_allowlist redacted_attributes object_at get_field set_field
redact_entity entity rules =
    let baseline = apply_allowlist preserved_fields_entity entity in
    elim (rule_for entity_attributes rules) [
      | none ↦ baseline
      | some rule ↦
          set_field baseline "attributes"
            (redacted_attributes rule.behavior (keys (object_at entity "attributes")))
    ]

-- `verb: command.verb`, if it is there
abbrev verb_field : Option Value → Fields
verb_field none = end
verb_field (some v) = field "verb" v end

-- the payload that is left, by its keys and the verb
unfoldable pub redacted_payload : Behavior → List String → Option Value → Value
unfolding mask_keys
redacted_payload mask ks verb = obj (mask_keys ks)
redacted_payload summarize ks verb = obj (
    field "_summary" (str (template (decimal (length ks) ∷ " fields redacted" ∷ [])))
      (verb_field verb))
redacted_payload hash ks verb = single "_hash" redacted
redacted_payload _ ks verb = obj end

-- `redactCommand`
unfoldable pub redact_command : Fields → List RedactionRule → Fields
unfolding rule_for apply_allowlist redacted_payload object_at get_field set_field
redact_command command rules =
    let baseline = apply_allowlist preserved_fields_command command in
    elim (rule_for command_payload rules) [
      | none ↦ baseline
      | some rule ↦ set_field baseline "payload" (
          redacted_payload rule.behavior (keys (object_at command "payload"))
            (get_field command "verb"))
    ]

-- the summary and the affected ids that are left, by the number of ids
unfoldable pub redacted_summary : Behavior → ℕ → Value
redacted_summary summarize n =
    str (template ("[Redacted: " ∷ decimal n ∷ " objects affected]" ∷ []))
redacted_summary _ n = redacted

unfoldable pub redacted_ids : Behavior → ℕ → Value
unfolding mask_items
redacted_ids mask n = arr (mask_items n)
redacted_ids hash n = arr (mask_items n)
redacted_ids _ n = arr nil

-- `redactReceipt`
unfoldable pub redact_receipt : Fields → List RedactionRule → Fields
unfolding rule_for apply_allowlist redacted_summary redacted_ids items_at count_items get_field
    set_field
redact_receipt receipt rules =
    let baseline = apply_allowlist preserved_fields_receipt receipt in
    elim (rule_for receipt_details rules) [
      | none ↦ baseline
      | some rule ↦
          let n = count_items (items_at receipt "affectedIds") in
          set_field (set_field baseline "resultSummary" (redacted_summary rule.behavior n))
            "affectedIds" (redacted_ids rule.behavior n)
    ]

-- what the payload rule leaves of the detail of an event
unfoldable pub strip_detail : Fields → Fields
unfolding delete_field
strip_detail d =
    delete_field
      (delete_field (delete_field (delete_field (delete_field d "payload") "commandId") "kind")
        "entityId")
      "name"

abbrev is_there : Option RedactionRule → Bool
is_there none = false
is_there (some rule) = true

-- `redactProvenanceEvent`
unfoldable pub redact_provenance_event : Fields → List RedactionRule → Fields
unfolding rule_for apply_allowlist strip_detail object_at get_field set_field
redact_provenance_event event rules =
    let baseline = apply_allowlist preserved_fields_provenance_event event in
    let detail =
      if is_there (rule_for receipt_details rules)
      then end
      else if is_there (rule_for command_payload rules)
      then strip_detail (object_at baseline "detail")
      else object_at baseline "detail" in
    let masked =
      if is_there (rule_for provenance_actors rules)
      then set_field baseline "actorId" redacted
      else baseline in
    set_field masked "detail" (obj detail)

-- the number of UTF-16 code units of a text
unfoldable pub utf16_length : String → ℕ
utf16_length String.[] = 0
utf16_length (String.◌∷◌ c s) =
    let n = utf16_length s in if leb 0x10000 (code c) then suc (suc n) else suc n

unfoldable pub redacted_source : Behavior → String → Value
unfolding utf16_length
redacted_source hash id = str (template (redacted_hash_prefix ∷ decimal (utf16_length id) ∷ []))
redacted_source _ id = redacted

-- `redactIndexRecord`
unfoldable pub redact_index_record : Fields → List RedactionRule → Fields
unfolding rule_for apply_allowlist redacted_source text_at get_field set_field
redact_index_record record_fields rules =
    let baseline = apply_allowlist preserved_fields_index_record record_fields in
    elim (rule_for index_source_uri rules) [
      | none ↦ baseline
      | some rule ↦
          set_field baseline "sourceId"
            (redacted_source rule.behavior (text_at record_fields "sourceId"))
    ]

-- `redactIndexSourceUri`
unfoldable pub redact_index_source_uri : Fields → List RedactionRule → Fields
unfolding rule_for set_field
redact_index_source_uri record_fields rules = elim (rule_for index_source_uri rules) [
  | none ↦ record_fields
  | some rule ↦ set_field record_fields "sourceId" redacted
]
