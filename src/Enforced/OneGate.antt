-- ===== src/Enforced/OneGate.antt =====
-- The second gate of `inspectEntity` and of `inspectCommand`.
use Prim.Native.Nat.{Ordering}
use db_cluster.Prelude.{String, List, ◌≡◌, sym, ◌∙◌, inl, inr, refl}
use db_cluster.Json.{Fields}
use db_cluster.Errors.{Error, Result, ok, err}
use db_cluster.Stores.{Host}
use db_cluster.Policy.{
  Capability, allow, read_owner_truth, read_command, RedactionRule, PolicyDecision,
  derive_owner_store,
}
use db_cluster.Policy.Underspecified.{LessSpecific, evaluate_policy-LessSpecific}
use db_cluster.Redactor.{redact_entity, redact_command}
use db_cluster.Kernel.Action.{State, Action}
use db_cluster.Kernel.Recording.{inspect_stored}
use db_cluster.Kernel.Reads
use db_cluster.Enforced.{
  Gatekeeper, Resource, returned, Guarded, lifted, delegate, attempt, attempted, decide, enforce,
  missing, request, options, pure, refuse, ◌>>=◌, entity_fields, command_fields,
}
use db_cluster.Enforced.Gate.{enforce-Gated}
use db_cluster.Enforced.Reads.{
  in_store, object_in, entity_named, command_named, uri_of, refined, disclose, inspect_entity,
  inspect_command,
}

module _ (locale : String → String → Ordering) (g : Gatekeeper) where
  -- what a request is allowed, one that says more is allowed too
  refined-allow :
      (capability : Capability) (r s : Resource)
      → LessSpecific
          (derive_owner_store (request g capability r))
          (derive_owner_store (request g capability s))
      → (decide locale g capability r).decision ≡ allow
      → (decide locale g capability s).decision ≡ allow
  unfolding decide
  refined-allow capability r s less h =
      evaluate_policy-LessSpecific locale (request g capability r) (request g capability s)
        (options g) less h

module _ {W : Type 0} (locale : String → String → Ordering) (g : Gatekeeper) where
  refined-disclose :
      (capability : Capability) (r : Resource) (redact : Fields → List RedactionRule → Fields)
      (fields : Fields) (s : State W)
      → (decide locale g capability r).decision ≡ allow
      → refined locale g capability r redact fields s
        ≡ (returned (disclose locale g capability (λ (f : Fields). r) redact (λ f. f) fields), s)
  unfolding refined disclose enforce ◌>>=◌ pure refuse
  refined-disclose capability r redact fields s h = rw h refl

  attempted-same :
      {A B : Type 0} (f h : A → Guarded W B) (miss : Error → Guarded W B) (r : Result A × State W)
      → ((a : A) (t : State W) → f a t ≡ h a t)
      → attempted f miss (lifted r) ≡ attempted h miss (lifted r)
  attempted-same f h miss (ok a, t) e = e a t
  attempted-same f h miss (err x, t) e = refl

  -- two operations behind the same gate
  gate-same :
      {A : Type 0} (capability : Capability) (r : Resource) (f h : PolicyDecision → Guarded W A)
      (s : State W)
      → ((decide locale g capability r).decision ≡ allow
          → f (decide locale g capability r) s ≡ h (decide locale g capability r) s)
      → (enforce locale g capability r >>= f) s ≡ (enforce locale g capability r >>= h) s
  gate-same capability r f h s same = elim (enforce-Gated locale g capability r f s) [
    | inl (no', e) ↦ elim (enforce-Gated locale g capability r h s) [
      | inl (no'', e') ↦ e ∙ sym e'
      | inr (yes'', e') ↦ absurd (cc)
    ]
    | inr (yes', e) ↦ elim (enforce-Gated locale g capability r h s) [
      | inl (no'', e') ↦ absurd (cc)
      | inr (yes'', e') ↦ e ∙ (same yes' ∙ sym e')
    ]
  ]

  -- A read with a gate before it and one behind it, where the second asks for more, is the read with the
  -- first gate alone.
  two_gates :
      {A : Type 0} (capability : Capability) (r : Resource) (ask : A → Resource)
      (redact : Fields → List RedactionRule → Fields) (view : A → Fields) (m : Action W A)
      (miss : Error → Guarded W Fields) (s : State W)
      → ((a : A)
          → LessSpecific
              (derive_owner_store (request g capability r))
              (derive_owner_store (request g capability (ask a))))
      → (enforce locale g capability r >>= λ d.
            attempt m (λ a. refined locale g capability (ask a) redact (view a)) miss)
          s
        ≡ (enforce locale g capability r >>= λ d.
              attempt m (λ a. pure (disclose locale g capability ask redact view a)) miss)
            s
  unfolding attempt delegate disclose pure
  two_gates capability r ask redact view m miss s less = gate-same capability r _ _ s (λ allows.
      attempted-same _ _ miss (m s) (λ a t.
        refined-disclose capability (ask a) redact (view a) t
          (refined-allow locale g capability r (ask a) (less a) allows)))

module _ {W : Type 0} (locale : String → String → Ordering) (host : Host W) (g : Gatekeeper) where
  -- the read behind one gate, its result as the decision on the entity redacts it
  abbrev pub inspect_once : String → Guarded W Fields
  inspect_once id = enforce locale g read_owner_truth (in_store "canonical") >>= λ d.
      attempt (Reads.inspect_entity host id)
        (λ e.
          pure (disclose locale g read_owner_truth (entity_named id) redact_entity entity_fields e))
        (missing g read_owner_truth (uri_of "canonical" id))

  -- `inspectEntity` is the read behind its first gate alone: whoever may read entities of the canonical store
  -- is shown each one, as the decision on it redacts it, and the second gate denies nothing.
  pub inspect_entity-OneGate :
      (id : String) (s : State W) → inspect_entity locale host g id s ≡ inspect_once id s
  unfolding inspect_entity derive_owner_store
  inspect_entity-OneGate id s =
      two_gates locale g read_owner_truth (in_store "canonical") (entity_named id) redact_entity
        entity_fields (Reads.inspect_entity host id)
        (missing g read_owner_truth (uri_of "canonical" id)) s
        (λ e. record {
          principal = refl;
          capability = refl;
          trust_zone = refl;
          owner_store = inr refl;
          entity_kind = inl refl;
          resource_uri = inl refl;
          command_verb = inl refl;
        })

  -- So it is with `inspectCommand`, whose first gate names the command and the ledger.
  pub inspect_command-OneGate :
      (id : String) (s : State W)
      → inspect_command locale host g id s
        ≡ (enforce locale g read_command (object_in "ledger" id) >>= λ d.
              attempt
                (inspect_stored host id)
                (λ c. pure (
                  disclose locale g read_command
                    (command_named id)
                    redact_command
                    command_fields
                    c))
                (missing g read_command (uri_of "ledger" id)))
            s
  unfolding inspect_command derive_owner_store
  inspect_command-OneGate id s =
      two_gates locale g read_command (object_in "ledger" id) (command_named id) redact_command
        command_fields (inspect_stored host id) (missing g read_command (uri_of "ledger" id)) s
        (λ c. record {
          principal = refl;
          capability = refl;
          trust_zone = refl;
          owner_store = inr refl;
          entity_kind = inl refl;
          resource_uri = inr refl;
          command_verb = inl refl;
        })
