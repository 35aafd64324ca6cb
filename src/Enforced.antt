-- ===== src/Enforced.antt =====
-- src/kernel/policy-enforced-kernel.ts: the kernel behind the policy engine. An operation is denied before
-- it reaches the kernel, or it is what the kernel does, its result filtered and redacted.
mod Views
pub mod Writes
pub mod Reads
pub mod Searches
pub mod Gate
pub mod Denials
pub mod Found
pub mod OneGate
pub mod Overreach
mod Examples
unfoldable pub use Views.{entity_fields, artifact_fields, command_fields, shown}
use Prim.Native.Nat.{Ordering}
use db_cluster.Prelude.{
  String, Bool, true, false, not, ◌&&◌, ◌||◌, Option, none, some, List, [], ◌∷◌, ◌++◌, ◌==◌, any,
  find, has, includes, is_empty, if◌then◌else◌,
}
use db_cluster.Json.{Fields, template}
use db_cluster.Errors.{Error, not_found, Result, ok, err}
use db_cluster.Kernel.Action.{State, Action}
use db_cluster.Policy.{
  Capability, capability_eq, Effect, deny, Principal, RedactionRule, VisibilityRule, TrustZone,
  Policy, PolicyMatch, PolicyDecision, PolicyEngineOptions, Request, evaluate_policy, is_deny,
  given, capability_name,
}

-- `PolicyContext`, and the policies with which a `PolicyEnforcedKernel` is made
pub record Gatekeeper : Type 0 where
  pub principal : Principal
  pub trust_zone : Option String
  pub policies : List Policy
  pub trust_zones : Option (List TrustZone)
  pub visibility_rules : List VisibilityRule

-- the resource of a request
pub record Resource : Type 0 where
  pub resource_uri : Option String
  pub owner_store : Option String
  pub entity_kind : Option String
  pub command_verb : Option String

abbrev pub anything : Resource
anything = record {
  resource_uri = none;
  owner_store = none;
  entity_kind = none;
  command_verb = none;
}

-- A method returns, throws `PolicyDeniedError` with the decision, or throws what the kernel throws.
pub data Outcome (A : Type 0) : Type 0 where
  returned : A → Outcome A
  denied : PolicyDecision → Outcome A
  thrown : Error → Outcome A

abbrev pub Guarded : Type 0 → Type 0 → Type 0
Guarded W A = State W → Outcome A × State W

-- the text of `PolicyDeniedError`
unfoldable pub denial_message : PolicyDecision → String
unfolding capability_name
denial_message d = template (
    "Policy denied: "
    ∷ capability_name d.capability
    ∷ " — "
    ∷ d.reason
    ∷ " (policy: "
    ∷ d.matched_policy_name
    ∷ ")"
    ∷ [])

-- `this.context.trustZone ?? this.context.principal.trustZone`
abbrev pub zone : Gatekeeper → String
zone g = elim g.trust_zone [ none ↦ g.principal.trust_zone | some z ↦ z ]

abbrev pub request : Gatekeeper → Capability → Resource → Request
request g capability r = record {
  principal = g.principal;
  capability = capability;
  resource_uri = r.resource_uri;
  owner_store = r.owner_store;
  entity_kind = r.entity_kind;
  command_verb = r.command_verb;
  trust_zone = some (zone g);
}

abbrev pub options : Gatekeeper → PolicyEngineOptions
options g = record { policies = g.policies; trust_zones = g.trust_zones; visibility_rules = none }

-- the rules of the first zone that has the name
abbrev zone_rules : Option String → Option (List TrustZone) → List RedactionRule
zone_rules (some name) (some zones) = elim (find (λ (z : TrustZone). z.id == name) zones) [
  | none ↦ []
  | some z ↦ z.redaction_rules
]
zone_rules _ _ = []

abbrev matched_rule : Option RedactionRule → List RedactionRule
matched_rule none = []
matched_rule (some rule) = rule ∷ []

-- `collectRedactionRules`
unfoldable pub collect_redaction_rules : Gatekeeper → PolicyDecision → List RedactionRule
collect_redaction_rules g d =
    matched_rule d.redaction ++ zone_rules (given (some (zone g))) g.trust_zones

-- a constraint that is there and names something
abbrev constrains : Option (List String) → Bool
constrains none = false
constrains (some xs) = not (is_empty xs)

abbrev for_capability : Capability → Option (List Capability) → Bool
for_capability capability none = true
for_capability capability (some cs) = has cs capability

abbrev for_principal : Principal → Option (List String) → Bool
for_principal p none = true
for_principal p (some []) = true
for_principal p (some (n ∷ ns)) = any (λ name. includes (p.id ∷ p.roles) name) (n ∷ ns)

-- whether a policy denies the principal the capability by the kind, the URI or the verb
unfoldable pub is_per_resource : Gatekeeper → Capability → Policy → Bool
is_per_resource g capability p =
    is_deny p.decision
    && (for_capability capability p.match.capabilities
        && (for_principal g.principal p.match.principals
            && (constrains p.match.uri_patterns
                || (constrains p.match.kinds || constrains p.match.command_verbs))))

-- `hasAnyPerResourceRule`
unfoldable pub has_any_per_resource_rule : Gatekeeper → Capability → Bool
unfolding is_per_resource
has_any_per_resource_rule g capability = any (is_per_resource g capability) g.policies

-- the decision that the gates make up themselves
abbrev made_up :
    Gatekeeper → Capability → (id name reason : String) → Option String → PolicyDecision
made_up g capability id name reason uri = record {
  decision = deny;
  matched_policy_id = id;
  matched_policy_name = name;
  capability = capability;
  reason = reason;
  principal_id = g.principal.id;
  trust_zone = zone g;
  resource_uri = uri;
  redaction = none;
  requires_approval = false;
}

abbrev pub refined_deny : Gatekeeper → Capability → String → PolicyDecision
refined_deny g capability uri =
    made_up g capability "__refined_deny" "Refined deny (per-resource gate)"
      "Per-resource policy denied access." (some uri)

abbrev pub invalid_store_deny : Gatekeeper → Capability → String → PolicyDecision
invalid_store_deny g capability store =
    made_up g capability "__invalid_store_deny" "Invalid target store (fail closed)"
      (template (
        "Unknown target store '" ∷ store ∷ "'. Valid stores are: "
        ∷ "canonical, artifact, index, ledger." ∷ []))
      none

-- `err instanceof NotFoundError`
abbrev pub is_not_found : Error → Bool
is_not_found (not_found store id) = true
is_not_found _ = false

abbrev pub owner_stores : List String
owner_stores = "canonical" ∷ "artifact" ∷ "index" ∷ "ledger" ∷ []

module _ {W : Type 0} where
  abbrev pub continue :
      {A B : Type 0} → (A → Guarded W B) → Outcome A × State W → Outcome B × State W
  continue f (returned a, s) = f a s
  continue f (denied d, s) = (denied d, s)
  continue f (thrown e, s) = (thrown e, s)

  infixl 5 ◌>>=◌
  unfoldable pub ◌>>=◌ : {A B : Type 0} → Guarded W A → (A → Guarded W B) → Guarded W B
  ◌>>=◌ m f s = continue f (m s)

  unfoldable pub pure : {A : Type 0} → A → Guarded W A
  pure a s = (returned a, s)

  abbrev pub lifted : {A : Type 0} → Result A × State W → Outcome A × State W
  lifted (ok a, s) = (returned a, s)
  lifted (err e, s) = (thrown e, s)

  -- a call of the kernel
  unfoldable pub delegate : {A : Type 0} → Action W A → Guarded W A
  delegate m s = lifted (m s)

  -- what follows an attempt to read, by whether it throws `NotFoundError`
  abbrev pub attempted :
      {A B : Type 0}
      → (A → Guarded W B)
      → (Error → Guarded W B)
      → Outcome A × State W
      → Outcome B × State W
  attempted found missing (returned a, s) = found a s
  attempted found missing (denied d, s) = (denied d, s)
  attempted found missing (thrown e, s) = if is_not_found e then missing e s else (thrown e, s)

  unfoldable pub attempt :
      {A B : Type 0} → Action W A → (A → Guarded W B) → (Error → Guarded W B) → Guarded W B
  unfolding delegate
  attempt m found missing s = attempted found missing (delegate m s)

  unfoldable pub refuse : {A : Type 0} → PolicyDecision → Guarded W A
  refuse d s = (denied d, s)

  unfoldable pub throw_again : {A : Type 0} → Error → Guarded W A
  throw_again e s = (thrown e, s)

module _ (locale : String → String → Ordering) (g : Gatekeeper) where
  -- the decision on a request of the principal
  unfoldable pub decide : Capability → Resource → PolicyDecision
  decide capability r = evaluate_policy locale (request g capability r) (options g)

  abbrev pub is_allowed : Capability → Resource → Bool
  is_allowed capability r = not (is_deny (decide capability r).decision)

  -- `enforce`
  unfoldable pub enforce : {W : Type 0} → Capability → Resource → Guarded W PolicyDecision
  unfolding decide refuse pure
  enforce capability r =
      let d = decide capability r in if is_deny d.decision then refuse d else pure d

module _ {W : Type 0} (g : Gatekeeper) where
  -- `assertOwnerStore`
  unfoldable pub assert_owner_store : String → Capability → Guarded W String
  unfolding refuse pure
  assert_owner_store store capability =
      if includes owner_stores store
      then pure store
      else refuse (invalid_store_deny g capability store)

  -- what a read that finds nothing becomes: `NotFoundError`, or a denial where a rule of the principal
  -- could have denied it behind the read
  unfoldable pub missing : {A : Type 0} → Capability → String → Error → Guarded W A
  unfolding refuse throw_again has_any_per_resource_rule
  missing capability uri e =
      if has_any_per_resource_rule g capability
      then refuse (refined_deny g capability uri)
      else throw_again e
