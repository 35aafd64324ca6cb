-- ===== src/Policy/Examples.antt =====
-- Requests under the default policies.
use Prim.Native.Nat.{Ordering}
use Prim.Native.String
use db_cluster.Prelude.{String, true, Option, none, some, [], ◌∷◌, ◌≡◌, ◌↔◌, inl, refl, includes}
use db_cluster.Uri.{parse_cluster_uri, match_uri, is_cluster_uri}
use db_cluster.Json.{is_blank}
use db_cluster.Policy.{
  Capability, capability_eq, commit_command, read_owner_truth, allow, Principal, Policy, Request,
  PolicyEngineOptions, match_policy, match_principals, match_trust_zones, match_capabilities,
  match_stores, match_kinds, match_uri_patterns, match_command_verbs, sort_policies_by_priority,
  evaluate_policy, derive_owner_store, apply_trust_zone_restrictions,
}
use db_cluster.Policy.Defaults.{default_policies, default_trust_zones, default_visibility_rules}
use db_cluster.Policy.Decisions.{
  In, Outranks, DecidedBy, evaluate_policy-DecidedBy, evaluate_policy-allow,
}
use db_cluster.Policy.Underspecified.{LessSpecific, evaluate_policy-LessSpecific}
use db_cluster.Policy.DefaultDecisions.{identifiers, gated_iff_admin}

-- `localeCompare` by code points, for ids in ASCII
abbrev by_code : String → String → Ordering
by_code = String.compare

abbrev principal_of : String → Principal
principal_of role = record {
  id = "user-1";
  name = "User";
  roles = role ∷ [];
  trust_zone = "ai-facing";
  metadata = none;
}

abbrev request_of : String → Capability → Option String → Request
request_of role capability uri = record {
  principal = principal_of role;
  capability = capability;
  resource_uri = uri;
  owner_store = none;
  entity_kind = none;
  command_verb = none;
  trust_zone = none;
}

abbrev options : PolicyEngineOptions
options = record {
  policies = default_policies;
  trust_zones = some default_trust_zones;
  visibility_rules = some default_visibility_rules;
}

abbrev admin_commit : Request
admin_commit = request_of "cluster-admin" commit_command none

abbrev vague : Request
vague = request_of "observer" read_owner_truth none

abbrev precise : Request
precise = record vague { owner_store = some "canonical"; entity_kind = some "Person" }

commits : (evaluate_policy by_code admin_commit options).decision ≡ allow
unfolding evaluate_policy sort_policies_by_priority derive_owner_store match_policy match_principals
    match_trust_zones match_capabilities match_stores match_kinds match_uri_patterns
    match_command_verbs apply_trust_zone_restrictions
commits = refl

reads : (evaluate_policy by_code vague options).decision ≡ allow
unfolding evaluate_policy sort_policies_by_priority derive_owner_store match_policy match_principals
    match_trust_zones match_capabilities match_stores match_kinds match_uri_patterns
    match_command_verbs apply_trust_zone_restrictions
reads = refl

-- a store is read off the URI of the resource
derives :
    (derive_owner_store
      (request_of "observer" read_owner_truth (some "cluster://ledger/e1"))).owner_store
    ≡ some "ledger"
unfolding derive_owner_store is_cluster_uri parse_cluster_uri match_uri is_blank
derives = refl

says_less : LessSpecific (derive_owner_store vague) (derive_owner_store precise)
unfolding derive_owner_store
says_less = record {
  principal = refl;
  capability = refl;
  trust_zone = refl;
  owner_store = inl refl;
  entity_kind = inl refl;
  resource_uri = inl refl;
  command_verb = inl refl;
}

evaluate_policy-DecidedBy_example :
    DecidedBy (derive_owner_store vague) default_policies (evaluate_policy by_code vague options)
evaluate_policy-DecidedBy_example = evaluate_policy-DecidedBy by_code vague options

evaluate_policy-allow_example :
    (p : Policy) × In p default_policies
    × (match_policy (derive_owner_store admin_commit) p ≡ true)
    × (p.decision ≡ allow)
    × ((evaluate_policy by_code admin_commit options).matched_policy_id ≡ p.id)
    × Outranks (derive_owner_store admin_commit) p default_policies
evaluate_policy-allow_example = evaluate_policy-allow by_code admin_commit options commits

evaluate_policy-LessSpecific_example : (evaluate_policy by_code precise options).decision ≡ allow
evaluate_policy-LessSpecific_example =
    evaluate_policy-LessSpecific by_code vague precise options says_less reads

gated_iff_admin_example :
    ((evaluate_policy by_code admin_commit options).decision ≡ allow)
    ↔ (includes (identifiers admin_commit) "cluster-admin" ≡ true)
gated_iff_admin_example = gated_iff_admin by_code admin_commit options refl refl
