-- ===== src/Policy/Types.antt =====
-- src/types/policy.ts. A store, kind, verb or zone is a text, as it comes over a tool call; a priority
-- is a natural number.
use db_cluster.Prelude.{
  ℕ, String, Bool, true, Option, List, Eq, nat_beq, code_beq_iff, ◌≡◌, ◌↔◌, arith, ◌==◌,
}
use db_cluster.Json.{Fields}

pub record Principal : Type 0 where
  pub id : String
  pub name : String
  pub roles : List String
  pub trust_zone : String
  pub metadata : Option Fields

pub data Capability : Type 0 where
  discover_existence read_owner_truth read_derivative trace_provenance : Capability
  propose_mutation validate_command approve_command reject_command : Capability
  commit_command compensate_command : Capability
  read_receipts read_command explain_retrieval : Capability

unfoldable pub capability_name : Capability → String
capability_name discover_existence = "discover_existence"
capability_name read_owner_truth = "read_owner_truth"
capability_name read_derivative = "read_derivative"
capability_name trace_provenance = "trace_provenance"
capability_name propose_mutation = "propose_mutation"
capability_name validate_command = "validate_command"
capability_name approve_command = "approve_command"
capability_name reject_command = "reject_command"
capability_name commit_command = "commit_command"
capability_name compensate_command = "compensate_command"
capability_name read_receipts = "read_receipts"
capability_name read_command = "read_command"
capability_name explain_retrieval = "explain_retrieval"

abbrev capability_code : Capability → ℕ
capability_code discover_existence = 0
capability_code read_owner_truth = 1
capability_code read_derivative = 2
capability_code trace_provenance = 3
capability_code propose_mutation = 4
capability_code validate_command = 5
capability_code approve_command = 6
capability_code reject_command = 7
capability_code commit_command = 8
capability_code compensate_command = 9
capability_code read_receipts = 10
capability_code read_command = 11
capability_code explain_retrieval = 12

capability_code_inj : (a b : Capability) → capability_code a ≡ capability_code b → a ≡ b
capability_code_inj a b h = ground arith

pub capability_beq_iff :
    (a b : Capability) → (nat_beq (capability_code a) (capability_code b) ≡ true) ↔ (a ≡ b)
capability_beq_iff = code_beq_iff capability_code capability_code_inj

instance abbrev pub capability_eq : Eq Capability
capability_eq = record {
  beq = λ a b. nat_beq (capability_code a) (capability_code b);
  beq_iff = capability_beq_iff;
}

pub record Scope : Type 0 where
  pub stores : List String
  pub kinds : Option (List String)
  pub uris : Option (List String)

pub record Role : Type 0 where
  pub id : String
  pub name : String
  pub capabilities : List Capability
  pub scope : Scope

pub data ApprovalMode : Type 0 where
  auto require_approval require_approval_for_writes : ApprovalMode

pub data Target : Type 0 where
  artifact_content entity_attributes entity_name artifact_filename : Target
  command_payload provenance_actors receipt_details index_source_uri : Target

abbrev pub target_name : Target → String
target_name artifact_content = "artifact_content"
target_name entity_attributes = "entity_attributes"
target_name entity_name = "entity_name"
target_name artifact_filename = "artifact_filename"
target_name command_payload = "command_payload"
target_name provenance_actors = "provenance_actors"
target_name receipt_details = "receipt_details"
target_name index_source_uri = "index_source_uri"

-- `===` on targets
abbrev pub target_beq : Target → Target → Bool
target_beq a b = target_name a == target_name b

-- `behavior`, and a text outside the union from a policy that was loaded at run time
pub data Behavior : Type 0 where
  strip mask summarize hash : Behavior
  other : String → Behavior

unfoldable pub behavior_name : Behavior → String
behavior_name strip = "strip"
behavior_name mask = "mask"
behavior_name summarize = "summarize"
behavior_name hash = "hash"
behavior_name (other text) = text

pub record RedactionRule : Type 0 where
  pub id : String
  pub target : Target
  pub behavior : Behavior
  pub reason : String

pub record VisibilityRule : Type 0 where
  pub id : String
  pub scope : Scope
  pub existence_visible : Bool
  pub emit_placeholder : Bool

pub record TrustZone : Type 0 where
  pub id : String
  pub name : String
  pub default_capabilities : List Capability
  pub default_scope : Scope
  pub approval_mode : ApprovalMode
  pub redaction_rules : List RedactionRule
  pub visibility_rules : List VisibilityRule

pub data Effect : Type 0 where
  allow deny : Effect

unfoldable pub effect_name : Effect → String
effect_name allow = "allow"
effect_name deny = "deny"

-- A field that is left out matches anything.
pub record PolicyMatch : Type 0 where
  pub principals : Option (List String)
  pub trust_zones : Option (List String)
  pub capabilities : Option (List Capability)
  pub stores : Option (List String)
  pub kinds : Option (List String)
  pub uri_patterns : Option (List String)
  pub command_verbs : Option (List String)

pub record Policy : Type 0 where
  pub id : String
  pub name : String
  pub priority : ℕ
  pub match : PolicyMatch
  pub decision : Effect
  pub reason : String
  pub redaction : Option RedactionRule

pub record PolicyDecision : Type 0 where
  pub decision : Effect
  pub matched_policy_id : String
  pub matched_policy_name : String
  pub capability : Capability
  pub reason : String
  pub principal_id : String
  pub trust_zone : String
  pub resource_uri : Option String
  pub redaction : Option RedactionRule
  pub requires_approval : Bool

-- `PolicyEvaluationRequest`
pub record Request : Type 0 where
  pub principal : Principal
  pub capability : Capability
  pub resource_uri : Option String
  pub owner_store : Option String
  pub entity_kind : Option String
  pub command_verb : Option String
  pub trust_zone : Option String
