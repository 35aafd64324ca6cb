-- ===== src/Commands/Types.antt =====
-- src/types/command.ts
use db_cluster.Prelude.{
  ℕ, String, Bool, true, Option, List, Eq, nat_beq, code_beq_iff, ◌≡◌, ◌↔◌, arith,
}
use db_cluster.Json.{Fields}

-- `CommandVerb`, and a text outside the union that a caller forged.
pub data CommandVerb : Type 0 where
  ingest_artifact create_entity update_entity link_evidence : CommandVerb
  propose_mutation reindex compensate : CommandVerb
  unknown : String → CommandVerb

unfoldable pub verb_name : CommandVerb → String
verb_name ingest_artifact = "ingest_artifact"
verb_name create_entity = "create_entity"
verb_name update_entity = "update_entity"
verb_name link_evidence = "link_evidence"
verb_name propose_mutation = "propose_mutation"
verb_name reindex = "reindex"
verb_name compensate = "compensate"
verb_name (unknown text) = text

pub data CommandStatus : Type 0 where
  proposed validated approved committed rejected compensated : CommandStatus

unfoldable pub status_name : CommandStatus → String
status_name proposed = "proposed"
status_name validated = "validated"
status_name approved = "approved"
status_name committed = "committed"
status_name rejected = "rejected"
status_name compensated = "compensated"

abbrev status_code : CommandStatus → ℕ
status_code proposed = 0
status_code validated = 1
status_code approved = 2
status_code committed = 3
status_code rejected = 4
status_code compensated = 5

status_code_inj : (a b : CommandStatus) → status_code a ≡ status_code b → a ≡ b
status_code_inj a b h = ground arith

pub status_beq_iff :
    (a b : CommandStatus) → (nat_beq (status_code a) (status_code b) ≡ true) ↔ (a ≡ b)
status_beq_iff = code_beq_iff status_code status_code_inj

instance abbrev pub status_eq : Eq CommandStatus
status_eq = record {
  beq = λ a b. nat_beq (status_code a) (status_code b);
  beq_iff = status_beq_iff;
}

pub record ValidationCheck : Type 0 where
  pub name : String
  pub passed : Bool
  pub message : Option String

pub record ValidationResult : Type 0 where
  pub valid : Bool
  pub checks : List ValidationCheck
  pub validated_at : String

-- An optional field of the source is an `Option`.
pub record Command : Type 0 where
  pub id : String
  pub verb : CommandVerb
  pub target_store : String
  pub payload : Fields
  pub proposed_at : String
  pub proposed_by : String
  pub status : CommandStatus
  pub validation : Option ValidationResult
  pub rejection_reason : Option String
  pub rejected_by : Option String
  pub rejected_at : Option String
  pub approved_by : Option String
  pub approved_at : Option String
  pub approval_note : Option String
  pub committed_at : Option String
  pub committed_by : Option String
  pub compensated_by : Option String
  pub compensated_at : Option String
  pub compensating_command_id : Option String
