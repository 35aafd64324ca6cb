-- ===== src/Ops/ChainCheck.antt =====
-- `checkLedgerIntegrityChain` of src/ops/integrity-checks.ts.
use db_cluster.Prelude.{
  ℕ, zero, suc, String, false, not, none, some, List, [], ◌∷◌, ◌++◌, ◌==◌, ◌&&◌, ◌≢◌, ◌+◌, inl, inr,
  filter, length, ltb, nat_beq, Bool-cases, if◌then◌else◌,
}
use db_cluster.Json.{template, join, decimal}
use db_cluster.Errors.{Result, ok, err, message}
use db_cluster.Ledger.{Ledger}
use db_cluster.Ledger.Types.{Sealed, Event, Receipt, event_sealed, receipt_sealed}
use db_cluster.Ops.Health.{HealthCheck, HealthStatus, healthy, corrupt, unverified, info, error}
use db_cluster.Ops.Chain.{check_integrity_chain}
use db_cluster.Ops.Intact.{NeverEmpty}
use db_cluster.Ops.Appended.{Appends, IsSound, check_integrity_chain-Appends}

abbrev first_items : ℕ → List String → List String
first_items zero xs = []
first_items (suc n) [] = []
first_items (suc n) (x ∷ xs) = x ∷ first_items n xs

-- the records with an integrity hash
abbrev count_stamped : {A : Type 0} ⦃s : Sealed A⦄ → List A → ℕ
count_stamped ⦃s⦄ xs = length (filter (λ a. not (s.hash_of a == "")) xs)

abbrev chain_check : HealthStatus → String → HealthCheck
chain_check status text = record {
  name = "ledger_integrity_chain";
  store = "ledger";
  status = status;
  severity = elim status [ corrupt ↦ error | _ ↦ info ];
  message = text;
  repair_available = false;
  suggested_command = none;
  next_steps = [];
  details = none;
}

abbrev violated : List String → HealthCheck
violated issues =
    record (chain_check corrupt (
      template (
        decimal (length issues)
        ∷ " ledger integrity violation(s) detected: the tamper-evidence "
        ∷ "hash or the prevHash chain does not hold. The append-only ledger has been "
        ∷ "edited, reordered, or had records inserted/deleted."
        ∷ []))) {
          suggested_command = some "db-cluster restore <backup.json>";
          details = some (join "\n" (first_items 10 issues));
          next_steps =
              "The ledger is tamper-evident; a violation means on-disk records were altered."
              ∷ "Inspect the events.json / receipts.json files for hand edits or reordering."
              ∷ "Restore from a known-good backup (`db-cluster restore <backup.json>`) — the ledger is append-only and cannot be safely repaired in place."
              ∷ [];
        }

-- the check where no issue was found
abbrev unviolated : List Event → List Receipt → HealthCheck
unviolated es rs =
    if ltb 0 (length es + length rs) && nat_beq (count_stamped es + count_stamped rs) 0
    then chain_check unverified (
        template (
          "Ledger tamper-evidence not verifiable: no record carries an integrityHash. "
          ∷ "(This is expected only for ledgers written before tamper-evidence was enabled.)" ∷ []))
    else chain_check healthy (
        template (
          "Ledger integrity intact: "
          ∷ decimal (length es)
          ∷ " event(s) + "
          ∷ decimal (length rs)
          ∷ " receipt(s) hash correctly and form an unbroken prevHash chain."
          ∷ []))

-- the check by the issues of both chains
unfoldable pub chain_verdict : List Event → List Receipt → List String → HealthCheck
chain_verdict es rs [] = unviolated es rs
chain_verdict es rs (i ∷ issues) = violated (i ∷ issues)

abbrev unreadable : String → HealthCheck
unreadable why =
    record (chain_check corrupt
      (template ("Ledger integrity verification failed (tamper or corruption): " ∷ why ∷ []))) {
        suggested_command = some "db-cluster restore <backup.json>";
        next_steps =
            "A verify-on-read integrity error or a corrupt ledger file was encountered."
            ∷ "Inspect events.json / receipts.json for hand edits or truncation."
            ∷ "Restore from a known-good backup (`db-cluster restore <backup.json>`)." ∷ [];
      }

-- `checkLedgerIntegrityChain`, by what `listEvents` and `listReceipts` give
unfoldable pub check_ledger_integrity_chain :
    (digest : String → String) → Result (List Event) → Result (List Receipt) → HealthCheck
unfolding chain_verdict check_integrity_chain message
check_ledger_integrity_chain digest (err e) receipts = unreadable (message e)
check_ledger_integrity_chain digest (ok es) (err e) = unreadable (message e)
check_ledger_integrity_chain digest (ok es) (ok rs) =
    chain_verdict es rs
      (check_integrity_chain digest es "event" ++ check_integrity_chain digest rs "receipt")

unviolated-uncorrupt : (es : List Event) (rs : List Receipt) → (unviolated es rs).status ≢ corrupt
unviolated-uncorrupt es rs h =
    elim (Bool-cases
      (ltb 0 (length es + length rs) && nat_beq (count_stamped es + count_stamped rs) 0)) [
        | inl e ↦ absurd (cc (rw e at h))
        | inr e ↦ absurd (cc (rw e at h))
      ]

-- Whatever is appended to a ledger whose chains hold, `checkLedgerIntegrityChain` is not corrupt.
pub check_ledger_integrity_chain-Appends :
    (digest cause : String → String)
    → NeverEmpty digest
    → {l m : Ledger} → Appends digest cause l m
    → IsSound digest cause l
    → (check_ledger_integrity_chain digest (ok m.events) (ok m.receipts)).status ≢ corrupt
unfolding check_ledger_integrity_chain chain_verdict
check_ledger_integrity_chain-Appends digest cause never {l} {m} r h =
    let (a, b) = check_integrity_chain-Appends digest cause never r h in
    rw (a, b) (unviolated-uncorrupt m.events m.receipts)
