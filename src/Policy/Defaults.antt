-- ===== src/Policy/Defaults.antt =====
-- src/policy/default-policies.ts: the policies, trust zones and visibility rules of a fresh cluster.
use db_cluster.Prelude.{String, false, true, Option, none, some, List, [], ◌∷◌}
use db_cluster.Policy.{
  Capability, discover_existence, read_owner_truth, read_derivative, trace_provenance,
  propose_mutation, validate_command, approve_command, commit_command, compensate_command,
  read_receipts, read_command, explain_retrieval, allow, deny, auto, require_approval,
  require_approval_for_writes, strip, mask, artifact_content, provenance_actors, Scope,
  VisibilityRule, TrustZone, PolicyMatch, Policy,
}

-- a match on a principal and, if given, on capabilities
abbrev match_on : String → Option (List Capability) → PolicyMatch
match_on principal capabilities = record {
  principals = some (principal ∷ []);
  trust_zones = none;
  capabilities = capabilities;
  stores = none;
  kinds = none;
  uri_patterns = none;
  command_verbs = none;
}

abbrev pub admin_full_access : Policy
admin_full_access = record {
  id = "admin-full-access";
  name = "Cluster Admin Full Access";
  priority = 10;
  match = match_on "cluster-admin" none;
  decision = allow;
  reason = "Cluster admin has unrestricted access.";
  redaction = none;
}

abbrev pub observer_read : Policy
observer_read = record {
  id = "observer-read";
  name = "Observer Read Access";
  priority = 20;
  match = match_on "observer" (
      some (
        discover_existence ∷ read_owner_truth ∷ read_derivative ∷ trace_provenance ∷ read_receipts
        ∷ read_command ∷ explain_retrieval ∷ []));
  decision = allow;
  reason = "Observer role grants read-only cluster access.";
  redaction = none;
}

abbrev pub proposer_propose : Policy
proposer_propose = record {
  id = "proposer-propose";
  name = "Proposer Can Propose";
  priority = 20;
  match = match_on "proposer" (
      some (
        discover_existence ∷ read_owner_truth ∷ read_derivative ∷ trace_provenance ∷ read_receipts
        ∷ read_command ∷ explain_retrieval ∷ propose_mutation ∷ validate_command ∷ []));
  decision = allow;
  reason = "Proposer can read and propose but not approve or commit.";
  redaction = none;
}

abbrev pub proposer_deny_commit : Policy
proposer_deny_commit = record {
  id = "proposer-deny-commit";
  name = "Proposer Cannot Commit";
  priority = 15;
  match = match_on "proposer" (some (commit_command ∷ approve_command ∷ compensate_command ∷ []));
  decision = deny;
  reason = "Proposers cannot commit, approve, or compensate. Those require elevated roles.";
  redaction = none;
}

-- `DEFAULT_POLICIES`
abbrev pub default_policies : List Policy
default_policies = admin_full_access ∷ observer_read ∷ proposer_propose ∷ proposer_deny_commit ∷ []

abbrev scope_of : List String → Option (List String) → Scope
scope_of stores kinds = record { stores = stores; kinds = kinds; uris = none }

-- `DEFAULT_TRUST_ZONES`
abbrev pub default_trust_zones : List TrustZone
default_trust_zones =
    record {
      id = "internal";
      name = "Internal (trusted)";
      default_capabilities =
          discover_existence ∷ read_owner_truth ∷ read_derivative ∷ trace_provenance ∷ read_receipts
          ∷ read_command ∷ explain_retrieval ∷ [];
      default_scope = scope_of ("*" ∷ []) none;
      approval_mode = auto;
      redaction_rules = [];
      visibility_rules = [];
    }
    ∷ record {
      id = "ai-facing";
      name = "AI-Facing (MCP/SDK)";
      default_capabilities = discover_existence ∷ read_derivative ∷ explain_retrieval ∷ [];
      default_scope = scope_of ("*" ∷ []) none;
      approval_mode = require_approval_for_writes;
      redaction_rules =
          record {
            id = "ai-strip-artifact-content";
            target = artifact_content;
            behavior = strip;
            reason = "AI-facing zone does not receive raw artifact content by default.";
          }
          ∷ [];
      visibility_rules = [];
    }
    ∷ record {
      id = "external";
      name = "External (untrusted)";
      default_capabilities = discover_existence ∷ read_derivative ∷ [];
      default_scope = scope_of ("index" ∷ []) none;
      approval_mode = require_approval;
      redaction_rules =
          record {
            id = "external-strip-content";
            target = artifact_content;
            behavior = strip;
            reason = "External zone has no access to artifact content.";
          }
          ∷ record {
            id = "external-mask-actors";
            target = provenance_actors;
            behavior = mask;
            reason = "External zone cannot see internal actor identities.";
          }
          ∷ [];
      visibility_rules =
          record {
            id = "external-hide-ledger";
            scope = scope_of ("ledger" ∷ []) none;
            existence_visible = false;
            emit_placeholder = false;
          }
          ∷ [];
    }
    ∷ []

-- `DEFAULT_VISIBILITY_RULES`
abbrev pub default_visibility_rules : List VisibilityRule
default_visibility_rules =
    record {
      id = "hide-restricted-artifacts";
      scope = scope_of ("artifact" ∷ []) (some ("restricted" ∷ []));
      existence_visible = false;
      emit_placeholder = true;
    }
    ∷ []
