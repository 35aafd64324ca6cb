-- ===== src/Ops/Referenced.antt =====
-- What `checkReceiptsProvenanceValid` decides.
use db_cluster.Prelude.{
  ℕ, zero, suc, String, Option, none, some, List, [], ◌∷◌, ◌==◌, ◌≡◌, ◌≢◌, ◌↔◌, ◌⊎◌, refl, inl, inr,
  drop, length, leb, ◌-◌, arith, subst, All, eq_iff, Bool-cases,
}
use db_cluster.Errors.{Result, ok, err, ◌>>=◌}
use db_cluster.Ledger.{Ledger, list_receipts}
use db_cluster.Ledger.Log.{limited, take_last}
use db_cluster.Ledger.Types.{Event, Receipt, receipt_sealed}
use db_cluster.Ops.Health.{healthy, stale, unreachable}
use db_cluster.Ops.References.{
  count_missing, missing_outcome, sampled_receipts, check_receipts_provenance_valid,
}

-- Every receipt that names an event names one that is read.
abbrev pub IsReferenced : (get : String → Result (Option Event)) → List Receipt → Type 0
IsReferenced get = All (λ (r : Receipt).
    (r.provenance_event_id ≡ "") ⊎ ((e : Event) × (get r.provenance_event_id ≡ ok (some e))))

-- one round of the loop counts nothing exactly where the event is read and the rest counts nothing
round-zero :
    (read : Result (Option Event)) (rest : Result ℕ)
    → ((do found ← read; n ← rest; ok (elim found [ none ↦ suc n | some e ↦ n ])) ≡ ok 0)
      ↔ (((e : Event) × (read ≡ ok (some e))) × (rest ≡ ok 0))
round-zero (ok (some e)) (ok n) = (λ h. ((e, refl), h), λ h. h.1)
round-zero (ok (some e)) (err x) = (λ h. absurd (cc), λ h. absurd (cc (h.1)))
round-zero (ok none) (ok n) = (λ h. absurd (cc), λ h. absurd (cc (h.0.1)))
round-zero (ok none) (err x) = (λ h. absurd (cc), λ h. absurd (cc (h.1)))
round-zero (err x) rest = (λ h. absurd (cc), λ h. absurd (cc (h.0.1)))

count_missing-zero :
    (get : String → Result (Option Event)) (rs : List Receipt)
    → (count_missing get rs ≡ ok 0) ↔ IsReferenced get rs
unfolding count_missing
count_missing-zero get [] = (λ h. tt, λ h. refl)
count_missing-zero get (r ∷ rs) =
    let id = r.provenance_event_id in
    let rest = count_missing-zero get rs in
    let round = round-zero (get id) (count_missing get rs) in
    elim (Bool-cases (id == "")) [
      | inl e ↦ rw e (λ h. (inl ((eq_iff id "").0 e), rest.0 h), λ h. rest.1 h.1)
      | inr e ↦ rw e (
        λ h. (inr (round.0 h).0, rest.0 (round.0 h).1),
        λ h. elim h.0 [
          | inl same ↦ absurd (cc ((eq_iff id "").1 same, e))
          | inr found ↦ round.1 (found, rest.1 h.1)
        ],
      )
    ]

stale_unhealthy : stale ≢ healthy
stale_unhealthy h = cc

unreachable_unhealthy : unreachable ≢ healthy
unreachable_unhealthy h = cc

verdict-zero : (read : Result ℕ) → ((missing_outcome read).status ≡ healthy) ↔ (read ≡ ok 0)
unfolding missing_outcome
verdict-zero (ok zero) = (λ h. refl, λ h. refl)
verdict-zero (ok (suc n)) = (λ h. absurd (stale_unhealthy h), λ h. absurd (cc))
verdict-zero (err x) = (λ h. absurd (unreachable_unhealthy h), λ h. absurd (cc))

-- The receipts that a check with a limit looks at: the last ones that were appended, and all for a limit
-- of 0.
abbrev pub sample : ℕ → List Receipt → List Receipt
sample zero rs = rs
sample (suc n) rs = drop (length rs - suc n) rs

take_last-drop : (n : ℕ) (rs : List Receipt) → take_last n rs ≡ drop (length rs - n) rs
unfolding take_last
take_last-drop n [] = let none_left : 0 - n ≡ 0 = omega arith in rw none_left refl
take_last-drop n (r ∷ rs) = elim (Bool-cases (leb (length (r ∷ rs)) n)) [
  | inl e ↦ let none_left : length (r ∷ rs) - n ≡ 0 = ground arith in rw (e, none_left) refl
  | inr e ↦
      let one_more : length (r ∷ rs) - n ≡ suc (length rs - n) = ground arith in
      rw (e, one_more) (take_last-drop n rs)
]

list_receipts-sampled :
    (n : ℕ) (l : Ledger) → list_receipts (sampled_receipts n) l ≡ sample n l.receipts
unfolding list_receipts limited
list_receipts-sampled zero l = refl
list_receipts-sampled (suc n) l = take_last-drop (suc n) l.receipts

-- Over the local ledger, `checkReceiptsProvenanceValid` is healthy exactly where each of the receipts that
-- it samples, as many of the last ones as its limit says, or all for a limit of 0, names no provenance
-- event or one that the ledger gives. An older receipt is not looked at.
pub check_receipts_provenance_valid-IsReferenced :
    (get : String → Result (Option Event)) (l : Ledger) (limit : ℕ)
    → ((check_receipts_provenance_valid get (λ f. ok (list_receipts f l)) limit).status ≡ healthy)
      ↔ IsReferenced get (sample limit l.receipts)
unfolding check_receipts_provenance_valid
check_receipts_provenance_valid-IsReferenced get l limit =
    let verdict = verdict-zero (count_missing get (list_receipts (sampled_receipts limit) l)) in
    let counted = count_missing-zero get (list_receipts (sampled_receipts limit) l) in
    subst
      (λ rs.
        ((check_receipts_provenance_valid get (λ f. ok (list_receipts f l)) limit).status ≡ healthy)
        ↔ IsReferenced get rs)
      (list_receipts-sampled limit l) (λ h. counted.0 (verdict.0 h), λ h. verdict.1 (counted.1 h))
