-- ===== src/Ops/Bijection.antt =====
-- `checkCommandReceiptBijection` of src/ops/integrity-checks.ts.
use db_cluster.Prelude.{
  ℕ, String, Bool, true, false, not, ◌||◌, none, some, List, [], ◌∷◌, ◌++◌, ◌==◌, ◌≡◌, map, filter,
  length, includes, ltb, nat_beq, All,
}
use db_cluster.Json.{template, join, decimal}
use db_cluster.Errors.{Result, ok, err, message}
use db_cluster.Commands.{Command, committed, compensated, status_eq}
use db_cluster.Ledger.Types.{Receipt}
use db_cluster.Ops.Health.{HealthCheck, HealthStatus, healthy, corrupt, info, error}

-- the committed commands; a compensated one was committed
abbrev pub is_done : Command → Bool
is_done c = status_eq.beq c.status committed || status_eq.beq c.status compensated

-- the receipts of a command
abbrev pub count_receipts : List Receipt → String → ℕ
count_receipts rs id = length (filter (λ (r : Receipt). r.command_id == id) rs)

abbrev pub done_ids : List Command → List String
done_ids cs = map (λ (c : Command). c.id) (filter is_done cs)

-- a receipt whose command is not there, and a committed command with no receipt or with several
abbrev pub is_orphan : List Command → Receipt → Bool
is_orphan cs r = not (includes (done_ids cs) r.command_id)

abbrev pub is_receiptless : List Receipt → Command → Bool
is_receiptless rs c = nat_beq (count_receipts rs c.id) 0

abbrev pub is_duplicated : List Receipt → Command → Bool
is_duplicated rs c = ltb 1 (count_receipts rs c.id)

abbrev first_three : List String → List String
first_three (a ∷ b ∷ c ∷ rest) = a ∷ b ∷ c ∷ []
first_three ids = ids

abbrev pub problem : String → List String → List String
problem text [] = []
problem text (id ∷ ids) =
    template (
      decimal (length (id ∷ ids))
      ∷ text
      ∷ " (e.g. "
      ∷ join ", " (first_three (id ∷ ids))
      ∷ ")"
      ∷ [])
    ∷ []

unfoldable pub bijection_problems : List Receipt → List Command → List String
bijection_problems rs cs =
    problem " orphan receipt(s) whose commandId resolves to no committed command"
      (map (λ (r : Receipt). r.id) (filter (is_orphan cs) rs))
    ++ problem " committed command(s) with no receipt"
        (map (λ (c : Command). c.id) (filter (is_receiptless rs) (filter is_done cs)))
    ++ problem " committed command(s) with more than one receipt"
        (map (λ (c : Command). c.id) (filter (is_duplicated rs) (filter is_done cs)))

abbrev bijection_check : HealthStatus → String → HealthCheck
bijection_check status text = record {
  name = "command_receipt_bijection";
  store = "ledger";
  status = status;
  severity = elim status [ healthy ↦ info | _ ↦ error ];
  message = text;
  repair_available = false;
  suggested_command = none;
  next_steps = [];
  details = none;
}

-- the check by its problems
unfoldable pub bijection_verdict : List Receipt → List Command → List String → HealthCheck
bijection_verdict rs cs [] = bijection_check healthy (
    template (
      "Command↔receipt bijection intact: "
      ∷ decimal (length (filter is_done cs))
      ∷ " committed command(s) each map to exactly one receipt and all "
      ∷ decimal (length rs)
      ∷ " receipt(s) resolve to a committed command."
      ∷ []))
bijection_verdict rs cs (p ∷ ps) =
    record (bijection_check corrupt (
      template (
        "Command↔receipt bijection broken: "
        ∷ join "; " (p ∷ ps)
        ∷ ". Every committed command must have exactly one receipt and every receipt must resolve "
        ∷ "to a committed command."
        ∷ []))) {
          suggested_command = some "db-cluster receipts --limit 200";
          next_steps =
              "Run `db-cluster receipts --limit 200` to inspect the receipt set."
              ∷ "For an orphan receipt, run `db-cluster inspect-command <commandId>` — a missing command means the queue lost state or the receipt was forged."
              ∷ "For a receipt-less committed command, the post-mutation receipt write failed: check for a matching `mutation_orphaned` event and restore from a backup if needed."
              ∷ [];
        }

abbrev unverifiable : String → HealthCheck
unverifiable why =
    record (bijection_check corrupt
      (template ("Command↔receipt bijection verification failed: " ∷ why ∷ []))) {
        next_steps =
            "Inspect the command queue (`pending-commands.json`) and the ledger receipts file for corruption."
            ∷ [];
      }

-- `checkCommandReceiptBijection`, by what `listReceipts` and the queue's `list` give
unfoldable pub check_command_receipt_bijection :
    Result (List Receipt) → Result (List Command) → HealthCheck
unfolding bijection_verdict bijection_problems message
check_command_receipt_bijection (err e) commands = unverifiable (message e)
check_command_receipt_bijection (ok rs) (err e) =
    unverifiable (template ("command queue unreadable: " ∷ message e ∷ []))
check_command_receipt_bijection (ok rs) (ok cs) = bijection_verdict rs cs (bijection_problems rs cs)

-- Every committed command has exactly one receipt, and the command of every receipt is committed.
abbrev pub IsBijection : List Receipt → List Command → Type 0
IsBijection rs cs =
    All (λ c. count_receipts rs c.id ≡ 1) (filter is_done cs)
    × All (λ r. includes (done_ids cs) r.command_id ≡ true) rs
