-- ===== src/Ops/Health.antt =====
-- src/types/health.ts and src/ops/health.ts: the outcome of a check, and that of all checks.
use db_cluster.Prelude.{
  ℕ, String, Bool, true, false, Option, List, [], ◌∷◌, ◌||◌, filter, any, length, ltb, Eq, nat_beq,
  code_beq_iff, ◌≡◌, ◌↔◌, arith, has, if◌then◌else◌,
}

pub data HealthStatus : Type 0 where
  healthy degraded stale missing corrupt unreachable unverified : HealthStatus

pub data Severity : Type 0 where
  error warning info : Severity

abbrev status_code : HealthStatus → ℕ
status_code healthy = 0
status_code degraded = 1
status_code stale = 2
status_code missing = 3
status_code corrupt = 4
status_code unreachable = 5
status_code unverified = 6

status_code_inj : (a b : HealthStatus) → status_code a ≡ status_code b → a ≡ b
status_code_inj a b h = ground arith

pub health_beq_iff :
    (a b : HealthStatus) → (nat_beq (status_code a) (status_code b) ≡ true) ↔ (a ≡ b)
health_beq_iff = code_beq_iff status_code status_code_inj

instance abbrev pub health_eq : Eq HealthStatus
health_eq = record {
  beq = λ a b. nat_beq (status_code a) (status_code b);
  beq_iff = health_beq_iff;
}

-- `HealthCheck`; no `nextSteps` is the empty list, and no check here sets `resourceUri`
pub record HealthCheck : Type 0 where
  pub name : String
  pub store : String
  pub status : HealthStatus
  pub severity : Severity
  pub message : String
  pub repair_available : Bool
  pub suggested_command : Option String
  pub next_steps : List String
  pub details : Option String

-- `ClusterHealth`, the fields of its summary beside the others
pub record ClusterHealth : Type 0 where
  pub status : HealthStatus
  pub checked_at : String
  pub checks : List HealthCheck
  pub total : ℕ
  pub healthy_count : ℕ
  pub degraded_count : ℕ
  pub errors : ℕ
  pub warnings : ℕ

abbrev is_error : HealthCheck → Bool
is_error c = elim c.severity [ error ↦ true | _ ↦ false ]

abbrev is_warning : HealthCheck → Bool
is_warning c = elim c.severity [ warning ↦ true | _ ↦ false ]

abbrev has_status : HealthStatus → HealthCheck → Bool
has_status s c = health_eq.beq c.status s

-- the status of the cluster where there are errors
abbrev error_status : List HealthCheck → HealthStatus
error_status checks =
    if any (has_status corrupt) checks
    then corrupt
    else (if any (has_status unreachable) checks
        then unreachable
        else (if any (has_status missing) checks then missing else degraded))

-- `buildClusterHealth`, at a time
unfoldable pub build_cluster_health : String → List HealthCheck → ClusterHealth
build_cluster_health now checks =
    let errors = length (filter is_error checks) in
    let warnings = length (filter is_warning checks) in
    let weak = length (filter (λ c. has_status degraded c || has_status stale c) checks) in
    record {
      status =
          if ltb 0 errors
          then error_status checks
          else (if ltb 0 warnings || ltb 0 weak then degraded else healthy);
      checked_at = now;
      checks = checks;
      total = length checks;
      healthy_count = length (filter (has_status healthy) checks);
      degraded_count = weak;
      errors = errors;
      warnings = warnings;
    }

-- `worstStatus`, by the statuses in order of precedence
unfoldable pub first_included : List HealthStatus → List HealthStatus → HealthStatus
first_included [] statuses = healthy
first_included (s ∷ rest) statuses =
    let next = first_included rest statuses in if has statuses s then s else next

unfoldable pub worst_status : List HealthStatus → HealthStatus
unfolding first_included
worst_status statuses =
    first_included (corrupt ∷ unreachable ∷ missing ∷ stale ∷ degraded ∷ unverified ∷ healthy ∷ [])
      statuses
