-- ===== src/Policy.antt =====
-- src/policy/policy-engine.ts: the decision on a request. Policies are sorted by priority, the first
-- one that matches decides, and what matches none is denied.
mod Types
mod Matching
pub mod Defaults
pub mod Order
pub mod Decisions
pub mod Underspecified
pub mod DefaultDecisions
mod Examples
pub use Types.{
  Capability, discover_existence, read_owner_truth, read_derivative, trace_provenance,
  propose_mutation, validate_command, approve_command, reject_command, commit_command,
  compensate_command, read_receipts, read_command, explain_retrieval, capability_eq, Effect, allow,
  deny, ApprovalMode, auto, require_approval, require_approval_for_writes, Behavior, strip, mask,
  summarize, hash, Target, artifact_content, entity_attributes, entity_name, artifact_filename,
  command_payload, provenance_actors, receipt_details, index_source_uri, Principal, Scope,
  RedactionRule, VisibilityRule, TrustZone, PolicyMatch, Policy, PolicyDecision, Request,
}
unfoldable pub use Matching.{
  match_principals, match_trust_zones, match_capabilities, match_stores, match_kinds,
  match_uri_patterns, match_command_verbs, match_policy,
}
unfoldable pub use Types.{capability_name}
pub use Types.{target_beq}
pub use Matching.{is_deny, given, zone_of, matches_field, unless_open}
use Prim.Native.Nat.{Ordering, compare}
use text.Mathlib.Text.{starts_with}
use db_cluster.Prelude.{
  ℕ, String, Bool, true, false, not, ◌&&◌, ◌||◌, Option, none, some, List, [], ◌∷◌, ◌++◌, ◌==◌, any,
  find, is_empty, includes, nat_beq, if◌then◌else◌,
}
use db_cluster.Errors.{ok, err}
use db_cluster.Uri.{ClusterUri, parse_cluster_uri, is_cluster_uri}

-- the fields of a decision that are the same in every outcome
abbrev decided : Request → Effect → String → String → String → Option RedactionRule → PolicyDecision
decided r effect id name reason redaction = record {
  decision = effect;
  matched_policy_id = id;
  matched_policy_name = name;
  capability = r.capability;
  reason = reason;
  principal_id = r.principal.id;
  trust_zone = zone_of r;
  resource_uri = r.resource_uri;
  redaction = redaction;
  requires_approval = false;
}

-- `defaultDeny`
unfoldable pub default_deny : Request → PolicyDecision
default_deny r =
    decided r deny "__default_deny" "Default Deny" "No matching policy found. Default is deny." none

-- The comparator of `sortPoliciesByPriority`. `locale` is `String.prototype.localeCompare`.
unfoldable pub compare_policies : (String → String → Ordering) → Policy → Policy → Ordering
compare_policies locale a b =
    if nat_beq a.priority b.priority
    then (if is_deny a.decision
        then (if is_deny b.decision then locale a.id b.id else Ordering.lt)
        else (if is_deny b.decision then Ordering.gt else locale a.id b.id))
    else compare a.priority b.priority

abbrev pub is_before : Ordering → Bool
is_before Ordering.lt = true
is_before _ = false

-- puts `p` before the first policy that does not have to stand before it
unfoldable pub insert_policy : (String → String → Ordering) → Policy → List Policy → List Policy
unfolding compare_policies
insert_policy locale p [] = p ∷ []
insert_policy locale p (q ∷ qs) =
    let rest = insert_policy locale p qs in
    if is_before (compare_policies locale q p) then q ∷ rest else p ∷ q ∷ qs

-- `sortPoliciesByPriority`: `Array.prototype.sort` is stable
unfoldable pub sort_policies_by_priority : (String → String → Ordering) → List Policy → List Policy
unfolding insert_policy
sort_policies_by_priority locale [] = []
sort_policies_by_priority locale (p ∷ ps) =
    insert_policy locale p (sort_policies_by_priority locale ps)

-- `isWriteAction`
unfoldable pub is_write_action : Capability → Bool
is_write_action commit_command = true
is_write_action compensate_command = true
is_write_action _ = false

abbrev asks_approval : ApprovalMode → Bool
asks_approval auto = false
asks_approval _ = true

-- `applyTrustZoneRestrictions`
unfoldable pub apply_trust_zone_restrictions :
    PolicyDecision → Request → List TrustZone → PolicyDecision
unfolding is_write_action
apply_trust_zone_restrictions d r zones = elim (find (λ (z : TrustZone). z.id == zone_of r) zones) [
  | none ↦ d
  | some z ↦
      if not (is_deny d.decision) && is_write_action r.capability && asks_approval z.approval_mode
      then record d { requires_approval = true }
      else d
]

pub record PolicyEngineOptions : Type 0 where
  pub policies : List Policy
  pub trust_zones : Option (List TrustZone)
  pub visibility_rules : Option (List VisibilityRule)

-- the four stores that a request may name
abbrev pub owner_stores : List String
owner_stores = "canonical" ∷ "artifact" ∷ "index" ∷ "ledger" ∷ []

abbrev store_of_uri : String → Option String
store_of_uri uri = elim (parse_cluster_uri uri) [
  | ok u ↦ if includes owner_stores u.store then some u.store else none
  | err e ↦ none
]

-- the store that the resource's URI names, when the request gives none
unfoldable pub derive_owner_store : Request → Request
derive_owner_store r = elim (given r.owner_store) [
  | some store ↦ r
  | none ↦ elim (given r.resource_uri) [
    | none ↦ r
    | some uri ↦
        if is_cluster_uri uri
        then (elim (store_of_uri uri) [
          | none ↦ r
          | some store ↦ record r { owner_store = some store }
        ])
        else r
  ]
]

-- the decision that a matching policy produces
abbrev pub decision_of : Request → Policy → PolicyDecision
decision_of r p = decided r p.decision p.id p.name p.reason p.redaction

abbrev pub zones_of : Option (List TrustZone) → List TrustZone
zones_of none = []
zones_of (some zones) = zones

abbrev pub decide_by : Request → List TrustZone → Option Policy → PolicyDecision
decide_by r zones none = default_deny r
decide_by r zones (some p) = apply_trust_zone_restrictions (decision_of r p) r zones

-- `evaluatePolicy`
unfoldable pub evaluate_policy :
    (String → String → Ordering) → Request → PolicyEngineOptions → PolicyDecision
evaluate_policy locale request options =
    let r = derive_owner_store request in
    decide_by r (zones_of options.trust_zones)
      (find (match_policy r) (sort_policies_by_priority locale options.policies))

abbrev store_fits : Scope → Option String → Bool
store_fits scope none = true
store_fits scope (some store) = includes scope.stores "*" || includes scope.stores store

abbrev uri_fits : Option (List String) → Option String → Bool
uri_fits (some uris) (some uri) = is_empty uris || any (λ u. starts_with uri u) uris
uri_fits _ _ = true

-- `scopeMatchesResource`
unfoldable pub scope_matches_resource : Scope → (resource_uri owner_store : Option String) → Bool
scope_matches_resource scope resource_uri owner_store =
    store_fits scope (given owner_store) && uri_fits scope.uris (given resource_uri)

pub record Visibility : Type 0 where
  pub existence_visible : Bool
  pub emit_placeholder : Bool

abbrev hidden : Visibility
hidden = record { existence_visible = false; emit_placeholder = false }

-- the loop of `checkVisibility`
unfoldable pub visibility_by :
    (resource_uri owner_store : Option String) → List VisibilityRule → Visibility
unfolding scope_matches_resource
visibility_by resource_uri owner_store [] = hidden
visibility_by resource_uri owner_store (rule ∷ rules) =
    if scope_matches_resource rule.scope resource_uri owner_store
    then record {
      existence_visible = rule.existence_visible;
      emit_placeholder = rule.emit_placeholder;
    }
    else visibility_by resource_uri owner_store rules

abbrev is_absent : Option String → Bool
is_absent none = true
is_absent (some s) = false

-- `checkVisibility`
unfoldable pub check_visibility :
    (resource_uri owner_store : Option String) → List VisibilityRule → Visibility
unfolding visibility_by
check_visibility resource_uri owner_store rules =
    if is_absent (given resource_uri) && is_absent (given owner_store)
    then hidden
    else visibility_by resource_uri owner_store rules
