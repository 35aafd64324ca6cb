-- ===== src/Redactor/Blind.antt =====
-- What the redactor lets through: of a redacted field, nothing but what the behavior is written to show.
use db_cluster.Prelude.{
  String, true, false, some, List, ◌==◌, ◌≡◌, inl, inr, refl, ap, ◌∙◌, subst, arith, eq_iff,
  includes, Bool-cases, Option-cases, if◌then◌else◌,
}
use mathlib.Core.Option.{some-injective}
use db_cluster.Json.{Value, str, obj, Fields, end, field, get_field, set_field, keys}
use db_cluster.Policy.{RedactionRule, entity_attributes, command_payload}
use db_cluster.Redactor.{
  is_redacted_marker, redacted_marker, apply_allowlist, unknown_field, preserved_fields_entity,
  preserved_fields_command, rule_for, redacted_attributes, redacted_payload, redact_entity,
  redact_command, object_at, text_at,
}

self_eq : (s : String) → (s == s) ≡ true
self_eq s = (eq_iff s s).1 refl

get-set_field : (e : Fields) (k : String) (v : Value) → get_field (set_field e k v) k ≡ some v
unfolding get_field set_field
get-set_field end k v = rw (self_eq k) refl
get-set_field (field j w rest) k v = elim (Bool-cases (j == k)) [
  | inl e ↦ rw e (rw e refl)
  | inr e ↦ rw e (rw e (get-set_field rest k v))
]

get-set_field_other :
    (e : Fields) (k : String) (v : Value) (j : String)
    → (k == j) ≡ false
    → get_field (set_field e k v) j ≡ get_field e j
unfolding get_field set_field
get-set_field_other end k v j h = rw h refl
get-set_field_other (field i w rest) k v j h = elim (Bool-cases (i == k)) [
  | inl e ↦ ground (arith, eq_iff i k, eq_iff i j, eq_iff k j)
  | inr e ↦ ground (arith, get-set_field_other rest k v j h)
]

get-apply_allowlist :
    (allowed : List String) (o : Fields) (key : String) (v : Value)
    → get_field o key ≡ some v
    → get_field (apply_allowlist allowed o) key
      ≡ some (if includes allowed key then v else unknown_field v)
unfolding get_field apply_allowlist
get-apply_allowlist allowed end key v h = absurd (cc)
get-apply_allowlist allowed (field k w rest) key v h = elim (Bool-cases (k == key)) [
  | inl e ↦
      subst
        (λ x.
          (if k == key
            then some (if includes allowed k then w else unknown_field w)
            else get_field (apply_allowlist allowed rest) key)
          ≡ some (if includes allowed key then x else unknown_field x))
        (some-injective w v (rw e at h))
        (rw e
          (ap (λ j. some (if includes allowed j then w else unknown_field w)) ((eq_iff k key).0 e)))
  | inr e ↦ rw e (get-apply_allowlist allowed rest key v (rw e at h))
]

-- what is written over a field forgets the field
overwrite :
    (allowed : List String) (e : Fields) (k : String) (x y v : Value)
    → set_field (apply_allowlist allowed (set_field e k x)) k v
      ≡ set_field (apply_allowlist allowed (set_field e k y)) k v
unfolding set_field apply_allowlist
overwrite allowed end k x y v = rw (self_eq k) refl
overwrite allowed (field j w rest) k x y v = elim (Bool-cases (j == k)) [
  | inl e ↦ rw e (rw e refl)
  | inr e ↦ rw e (
      rw e (
        ap (field j (if includes allowed j then w else unknown_field w))
          (overwrite allowed rest k x y v)))
]

object_at-set_field :
    (e : Fields) (k : String) (f : Fields) → object_at (set_field e k (obj f)) k ≡ f
unfolding object_at
object_at-set_field e k f = rw (get-set_field e k (obj f), object_at) refl

text_at-set_field : (e : Fields) (k s : String) → text_at (set_field e k (str s)) k ≡ s
unfolding text_at
text_at-set_field e k s = rw (get-set_field e k (str s), text_at) refl

includes-ne :
    (xs : List String) (k s : String)
    → includes xs k ≡ true
    → includes xs s ≡ false
    → (k == s) ≡ false
includes-ne xs k s listed unlisted = elim (Bool-cases (k == s)) [
  | inl e ↦ let same = subst (λ x. includes xs x ≡ true) ((eq_iff k s).0 e) listed in absurd (cc)
  | inr e ↦ e
]

shown_unknown :
    (e : Fields) (rules : List RedactionRule) (key : String) (v : Value)
    → includes preserved_fields_entity key ≡ false
    → get_field e key ≡ some v
    → get_field (redact_entity e rules) key ≡ some (unknown_field v)
unfolding redact_entity
shown_unknown e rules key v unknown h =
    let shown : get_field (apply_allowlist preserved_fields_entity e) key ≡ some (unknown_field v) =
      get-apply_allowlist preserved_fields_entity e key v h
      ∙ ap (λ b. some (if b then v else unknown_field v)) unknown in
    elim (Option-cases (rule_for entity_attributes rules)) [
      | inl n ↦ rw (n, redact_entity) shown
      | inr (rule, r) ↦
          rw (r, redact_entity)
            (get-set_field_other (apply_allowlist preserved_fields_entity e) "attributes"
                (redacted_attributes rule.behavior (keys (object_at e "attributes"))) key
                (includes-ne preserved_fields_entity "attributes" key refl unknown)
              ∙ shown)
    ]

is_redacted_marker-unknown_field : (v : Value) → is_redacted_marker (unknown_field v) ≡ true
unfolding is_redacted_marker redacted_marker get_field
is_redacted_marker-unknown_field v = refl

-- A field that the allowlist of the entities does not name leaves the redactor as a marker, whatever
-- its value and whatever the rules, and `isRedactedMarker` knows the marker.
redact_entity-unknown :
    (e : Fields) (rules : List RedactionRule) (key : String) (v : Value)
    → includes preserved_fields_entity key ≡ false
    → get_field e key ≡ some v
    → (get_field (redact_entity e rules) key ≡ some (unknown_field v))
      × (is_redacted_marker (unknown_field v) ≡ true)
redact_entity-unknown e rules key v unknown h =
    (shown_unknown e rules key v unknown h, is_redacted_marker-unknown_field v)

-- Where a rule redacts the attributes of entities, two entities that differ in the values of their
-- attributes only are redacted to the same record, whatever the behavior of the rule.
pub redact_entity-blind :
    (e f g : Fields) (rules : List RedactionRule) (rule : RedactionRule)
    → rule_for entity_attributes rules ≡ some rule
    → keys f ≡ keys g
    → redact_entity (set_field e "attributes" (obj f)) rules
      ≡ redact_entity (set_field e "attributes" (obj g)) rules
unfolding redact_entity
redact_entity-blind e f g rules rule r h =
    rw
      (
        r,
        redact_entity,
        object_at-set_field e "attributes" f,
        object_at-set_field e "attributes" g,
        h,
      )
      (overwrite preserved_fields_entity e "attributes" (obj f) (obj g)
        (redacted_attributes rule.behavior (keys g)))

-- Where a rule redacts the payloads of commands, two commands that differ in the values of their
-- payloads only are redacted to the same record, whatever the behavior of the rule.
redact_command-blind :
    (c f g : Fields) (rules : List RedactionRule) (rule : RedactionRule)
    → rule_for command_payload rules ≡ some rule
    → keys f ≡ keys g
    → redact_command (set_field c "payload" (obj f)) rules
      ≡ redact_command (set_field c "payload" (obj g)) rules
unfolding redact_command
redact_command-blind c f g rules rule r h =
    rw
      (
        r,
        redact_command,
        object_at-set_field c "payload" f,
        object_at-set_field c "payload" g,
        get-set_field_other c "payload" (obj f) "verb" refl,
        get-set_field_other c "payload" (obj g) "verb" refl,
        h,
      )
      (overwrite preserved_fields_command c "payload" (obj f) (obj g)
        (redacted_payload rule.behavior (keys g) (get_field c "verb")))
