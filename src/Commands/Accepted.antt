-- ===== src/Commands/Accepted.antt =====
-- What `validateCommand` of src/kernel/commands.ts accepts, described apart from its code.
use db_cluster.Prelude.{
  ℕ, List, String, Bool, true, false, ◌&&◌, ◌||◌, Option, none, some, ◌≡◌, ◌≢◌, ◌↔◌, ◌⊎◌, inl, inr,
  refl, sym, ◌∙◌, arith, ◌==◌, eq_iff, includes, not, Bool-cases,
}
use db_cluster.Json.{
  Items, Value, null, bool, num, str, buffer, obj, arr, Fields, get_field, is_string,
  is_nonempty_string, is_object,
}
use db_cluster.Errors.{is_ok}
use db_cluster.Commands.{
  CommandVerb, ingest_artifact, create_entity, update_entity, link_evidence, propose_mutation,
  reindex, compensate, unknown, verb_name, Command, CommandStatus, proposed, valid_stores,
  validate_command, is_proposed,
}
use db_cluster.Commands.Validation.{has_content_shape, payload_accepted, is_ok-validate_command}

-- the key holds a text
abbrev pub HasText : Fields → String → Type 0
HasText p key = (s : String) × (get_field p key ≡ some (str s))

-- the key holds a text that is not empty
abbrev pub HasWord : Fields → String → Type 0
HasWord p key = (s : String) × (get_field p key ≡ some (str s)) × (s ≢ "")

-- the key holds an object, an array or a Buffer
abbrev pub HasObject : Fields → String → Type 0
HasObject p key =
    ((f : Fields) × (get_field p key ≡ some (obj f)))
    ⊎ (((xs : Items) × (get_field p key ≡ some (arr xs)))
        ⊎ ((bytes : List ℕ) × (get_field p key ≡ some (buffer bytes))))

-- the key is not there, or holds a text or a Buffer
abbrev pub HasContent : Fields → String → Type 0
HasContent p key =
    (get_field p key ≡ none)
    ⊎ (HasText p key ⊎ ((bytes : List ℕ) × (get_field p key ≡ some (buffer bytes))))

-- What a payload holds, for each verb.
abbrev pub IsPayload : CommandVerb → Fields → Type 0
IsPayload create_entity p = HasWord p "kind" × HasWord p "name"
IsPayload update_entity p = HasText p "entityId" × HasObject p "patch"
IsPayload ingest_artifact p =
    HasContent p "content" × (HasText p "filename" ⊎ HasText p "artifactId")
IsPayload link_evidence p = HasText p "artifactId" × HasText p "entityId"
IsPayload compensate p = HasText p "originalCommandId" × HasText p "reason"
IsPayload propose_mutation p = Unit
IsPayload reindex p = Unit
IsPayload (unknown text) p = Unit

abbrev pub IsTargetStore : String → Type 0
IsTargetStore s = (s ≡ "canonical") ⊎ ((s ≡ "artifact") ⊎ ((s ≡ "index") ⊎ (s ≡ "ledger")))

-- A proposed command with a verb, one of the four stores and the payload of its verb.
abbrev pub IsAccepted : Command → Type 0
IsAccepted c =
    (verb_name c.verb ≢ "")
    × IsTargetStore c.target_store
    × IsPayload c.verb c.payload
    × (c.status ≡ proposed)

and_iff :
    {P Q : Type 0} {a b : Bool} → (a ≡ true) ↔ P → (b ≡ true) ↔ Q → ((a && b) ≡ true) ↔ (P × Q)
and_iff {a = true} {b} f g = (λ h. (f.0 refl, g.0 h), λ h. g.1 h.1)
and_iff {a = false} {b} f g = (λ h. absurd (cc), λ h. absurd (cc (f.1 h.0)))

or_iff : {P Q : Type 0} {a b : Bool} → (a ≡ true) ↔ P → (b ≡ true) ↔ Q → ((a || b) ≡ true) ↔ (P ⊎ Q)
or_iff {a = true} {b} f g = (λ h. inl (f.0 refl), λ h. refl)
or_iff {a = false} {b} f g =
    (λ h. inr (g.0 h), λ h. elim h [ inl p ↦ absurd (cc (f.1 p)) | inr q ↦ g.1 q ])

filled_iff : (s : String) → (not (s == "") ≡ true) ↔ (s ≢ "")
filled_iff s = (
  λ h e. cc ((eq_iff s "").1 e, h),
  λ h. elim (Bool-cases (s == "")) [ inl e ↦ absurd (h ((eq_iff s "").0 e)) | inr e ↦ rw e refl ],
)

text_iff : (o : Option Value) → (is_string o ≡ true) ↔ ((s : String) × (o ≡ some (str s)))
text_iff (some (str s)) = (λ h. (s, refl), λ h. refl)
text_iff none = (λ h. absurd (cc), λ h. absurd (cc (h.1)))
text_iff (some null) = (λ h. absurd (cc), λ h. absurd (cc (h.1)))
text_iff (some (bool b)) = (λ h. absurd (cc), λ h. absurd (cc (h.1)))
text_iff (some (num n)) = (λ h. absurd (cc), λ h. absurd (cc (h.1)))
text_iff (some (buffer b)) = (λ h. absurd (cc), λ h. absurd (cc (h.1)))
text_iff (some (obj f)) = (λ h. absurd (cc), λ h. absurd (cc (h.1)))
text_iff (some (arr xs)) = (λ h. absurd (cc), λ h. absurd (cc (h.1)))

word_iff :
    (o : Option Value)
    → (is_nonempty_string o ≡ true) ↔ ((s : String) × (o ≡ some (str s)) × (s ≢ ""))
word_iff (some (str s)) = elim (Bool-cases (s == "")) [
  | inl e ↦ rw e (λ h. absurd (cc), λ (t, same, full). absurd (full (cc ((eq_iff s "").0 e, same))))
  | inr e ↦ rw e (λ h. (s, refl, λ empty. cc ((eq_iff s "").1 empty, e)), λ h. refl)
]
word_iff none = (λ h. absurd (cc), λ h. absurd (cc (h.1)))
word_iff (some null) = (λ h. absurd (cc), λ h. absurd (cc (h.1)))
word_iff (some (bool b)) = (λ h. absurd (cc), λ h. absurd (cc (h.1)))
word_iff (some (num n)) = (λ h. absurd (cc), λ h. absurd (cc (h.1)))
word_iff (some (buffer b)) = (λ h. absurd (cc), λ h. absurd (cc (h.1)))
word_iff (some (obj f)) = (λ h. absurd (cc), λ h. absurd (cc (h.1)))
word_iff (some (arr xs)) = (λ h. absurd (cc), λ h. absurd (cc (h.1)))

object_iff :
    (o : Option Value)
    → (is_object o ≡ true) ↔ (
        ((f : Fields) × (o ≡ some (obj f)))
        ⊎ (((xs : Items) × (o ≡ some (arr xs))) ⊎ ((bytes : List ℕ) × (o ≡ some (buffer bytes)))))
object_iff (some (obj f)) = (λ h. inl (f, refl), λ h. refl)
object_iff (some (arr xs)) = (λ h. inr (inl (xs, refl)), λ h. refl)
object_iff (some (buffer bytes)) = (λ h. inr (inr (bytes, refl)), λ h. refl)
object_iff none = (λ h. absurd (cc), λ h. absurd (ground (arith, h)))
object_iff (some null) = (λ h. absurd (cc), λ h. absurd (ground (arith, h)))
object_iff (some (bool b)) = (λ h. absurd (cc), λ h. absurd (ground (arith, h)))
object_iff (some (num n)) = (λ h. absurd (cc), λ h. absurd (ground (arith, h)))
object_iff (some (str s)) = (λ h. absurd (cc), λ h. absurd (ground (arith, h)))

content_iff :
    (o : Option Value)
    → (has_content_shape o ≡ true) ↔ (
        (o ≡ none)
        ⊎ (((s : String) × (o ≡ some (str s))) ⊎ ((bytes : List ℕ) × (o ≡ some (buffer bytes)))))
content_iff none = (λ h. inl refl, λ h. refl)
content_iff (some (str s)) = (λ h. inr (inl (s, refl)), λ h. refl)
content_iff (some (buffer bytes)) = (λ h. inr (inr (bytes, refl)), λ h. refl)
content_iff (some null) = (λ h. absurd (cc), λ h. absurd (ground (arith, h)))
content_iff (some (bool b)) = (λ h. absurd (cc), λ h. absurd (ground (arith, h)))
content_iff (some (num n)) = (λ h. absurd (cc), λ h. absurd (ground (arith, h)))
content_iff (some (obj f)) = (λ h. absurd (cc), λ h. absurd (ground (arith, h)))
content_iff (some (arr xs)) = (λ h. absurd (cc), λ h. absurd (ground (arith, h)))

IsPayload-iff :
    (verb : CommandVerb) (p : Fields) → (payload_accepted verb p ≡ true) ↔ IsPayload verb p
IsPayload-iff create_entity p =
    and_iff (word_iff (get_field p "kind")) (word_iff (get_field p "name"))
IsPayload-iff update_entity p =
    and_iff (text_iff (get_field p "entityId")) (object_iff (get_field p "patch"))
IsPayload-iff ingest_artifact p =
    and_iff (content_iff (get_field p "content"))
      (or_iff (text_iff (get_field p "filename")) (text_iff (get_field p "artifactId")))
IsPayload-iff link_evidence p =
    and_iff (text_iff (get_field p "artifactId")) (text_iff (get_field p "entityId"))
IsPayload-iff compensate p =
    and_iff (text_iff (get_field p "originalCommandId")) (text_iff (get_field p "reason"))
IsPayload-iff propose_mutation p = (λ h. tt, λ h. refl)
IsPayload-iff reindex p = (λ h. tt, λ h. refl)
IsPayload-iff (unknown text) p = (λ h. tt, λ h. refl)

same_iff : (a b : String) → ((a == b) ≡ true) ↔ (b ≡ a)
same_iff a b = (λ h. sym ((eq_iff a b).0 h), λ h. (eq_iff a b).1 (sym h))

last_iff : (a b : String) → ((a == b || false) ≡ true) ↔ (b ≡ a)
last_iff a b = (λ h. (same_iff a b).0 (ground arith), λ h. ground (arith, (same_iff a b).1 h))

IsTargetStore-iff : (s : String) → (includes valid_stores s ≡ true) ↔ IsTargetStore s
IsTargetStore-iff s =
    or_iff (same_iff "canonical" s)
      (or_iff (same_iff "artifact" s) (or_iff (same_iff "index" s) (last_iff "ledger" s)))

proposed_iff : (status : CommandStatus) → (is_proposed status ≡ true) ↔ (status ≡ proposed)
proposed_iff status = (λ h. ground arith, λ h. rw h refl)

-- `validateCommand` returns exactly for the commands whose verb is not empty, whose target store is one of
-- `canonical`, `artifact`, `index` and `ledger`, whose payload holds what the verb wants, and whose status
-- is `proposed`; for all others it throws.
pub validate_command-IsAccepted :
    (now : String) (c : Command) → (is_ok (validate_command now c) ≡ true) ↔ IsAccepted c
validate_command-IsAccepted now c =
    let tested = is_ok-validate_command now c in
    let described =
      and_iff
        (and_iff (and_iff (filled_iff (verb_name c.verb)) (IsTargetStore-iff c.target_store))
          (IsPayload-iff c.verb c.payload))
        (proposed_iff c.status) in
    (
      λ h.
          let (((verb, store), payload), status) = described.0 (sym tested ∙ h) in
          (verb, store, payload, status),
      λ (verb, store, payload, status). tested ∙ described.1 (((verb, store), payload), status),
    )
