-- ===== src/Ops/Bijective.antt =====
-- What `checkCommandReceiptBijection` decides.
use db_cluster.Prelude.{
  ℕ, String, Bool, true, false, not, List, [], ◌∷◌, ◌++◌, ◌≡◌, ◌↔◌, refl, inl, inr, arith, map,
  filter, includes, ltb, nat_beq, All, Bool-cases,
}
use db_cluster.Errors.{ok}
use db_cluster.Commands.{Command}
use db_cluster.Ledger.Types.{Receipt}
use db_cluster.Ops.Health.{healthy}
use db_cluster.Ops.Bijection.{
  is_done, count_receipts, done_ids, is_orphan, is_receiptless, is_duplicated, problem,
  bijection_problems, bijection_verdict, check_command_receipt_bijection, IsBijection,
}

verdict-healthy :
    (rs : List Receipt) (cs : List Command) (ps : List String)
    → ((bijection_verdict rs cs ps).status ≡ healthy) ↔ (ps ≡ [])
unfolding bijection_verdict
verdict-healthy rs cs [] = (λ h. refl, λ h. refl)
verdict-healthy rs cs (p ∷ ps) = (λ h. absurd (cc), λ h. absurd (cc))

append-empty : {A : Type 0} (xs ys : List A) → (xs ++ ys ≡ []) ↔ ((xs ≡ []) × (ys ≡ []))
append-empty [] ys = (λ h. (refl, h), λ h. h.1)
append-empty (x ∷ xs) ys = (λ h. absurd (cc), λ h. absurd (cc (h.0)))

problem-empty : (text : String) (ids : List String) → (problem text ids ≡ []) ↔ (ids ≡ [])
problem-empty text [] = (λ h. refl, λ h. refl)
problem-empty text (i ∷ ids) = (λ h. absurd (cc), λ h. absurd (cc))

map-filter_empty :
    {A : Type 0} (f : A → String) (p : A → Bool) (xs : List A)
    → (map f (filter p xs) ≡ []) ↔ All (λ x. p x ≡ false) xs
map-filter_empty f p [] = (λ h. tt, λ h. refl)
map-filter_empty f p (x ∷ xs) =
    let rest = map-filter_empty f p xs in
    elim (Bool-cases (p x)) [
      | inl e ↦ rw e ((λ h. absurd (cc)), λ h. absurd (cc (h.0)))
      | inr e ↦ rw e ((λ h. (refl, rest.0 h)), λ h. rest.1 h.1)
    ]

once : (n : ℕ) → ((nat_beq n 0 ≡ false) × (ltb 1 n ≡ false)) ↔ (n ≡ 1)
once n = (λ h. ground arith, λ h. (ground arith, ground arith))

negated_off : (b : Bool) → (not b ≡ false) ↔ (b ≡ true)
negated_off true = (λ h. refl, λ h. refl)
negated_off false = (λ h. absurd (cc), λ h. absurd (cc))

found-once :
    (rs : List Receipt) (cs : List Command)
    → (All (λ c. is_receiptless rs c ≡ false) cs × All (λ c. is_duplicated rs c ≡ false) cs)
      ↔ All (λ c. count_receipts rs c.id ≡ 1) cs
found-once rs [] = (λ h. tt, λ h. (tt, tt))
found-once rs (c ∷ cs) =
    let rest = found-once rs cs in
    (
      λ h. ((once (count_receipts rs c.id)).0 (h.0.0, h.1.0), rest.0 (h.0.1, h.1.1)),
      λ h. (
        (((once (count_receipts rs c.id)).1 h.0).0, (rest.1 h.1).0),
        (((once (count_receipts rs c.id)).1 h.0).1, (rest.1 h.1).1),
      ),
    )

resolved :
    (cs : List Command) (rs : List Receipt)
    → All (λ r. is_orphan cs r ≡ false) rs
      ↔ All (λ r. includes (done_ids cs) r.command_id ≡ true) rs
resolved cs [] = (λ h. tt, λ h. tt)
resolved cs (r ∷ rs) =
    let rest = resolved cs rs in
    (
      λ h. ((negated_off (includes (done_ids cs) r.command_id)).0 h.0, rest.0 h.1),
      λ h. ((negated_off (includes (done_ids cs) r.command_id)).1 h.0, rest.1 h.1),
    )

problems-empty :
    (rs : List Receipt) (cs : List Command) → (bijection_problems rs cs ≡ []) ↔ IsBijection rs cs
unfolding bijection_problems
problems-empty rs cs =
    let orphans = map (λ (r : Receipt). r.id) (filter (is_orphan cs) rs) in
    let bare = map (λ (c : Command). c.id) (filter (is_receiptless rs) (filter is_done cs)) in
    let several = map (λ (c : Command). c.id) (filter (is_duplicated rs) (filter is_done cs)) in
    let orphan_text : String =
      " orphan receipt(s) whose commandId resolves to no committed command" in
    let bare_text : String = " committed command(s) with no receipt" in
    let more_text : String = " committed command(s) with more than one receipt" in
    let split =
      append-empty (problem orphan_text orphans ++ problem bare_text bare)
        (problem more_text several) in
    let split' = append-empty (problem orphan_text orphans) (problem bare_text bare) in
    let first = map-filter_empty (λ (r : Receipt). r.id) (is_orphan cs) rs in
    let second = map-filter_empty (λ (c : Command). c.id) (is_receiptless rs) (filter is_done cs) in
    let third = map-filter_empty (λ (c : Command). c.id) (is_duplicated rs) (filter is_done cs) in
    let counts = found-once rs (filter is_done cs) in
    let ids = resolved cs rs in
    (
      λ h.
          let (ab, d) = split.0 h in
          let (a, c) = split'.0 ab in
          (
            counts.0 (
              second.0 ((problem-empty bare_text bare).0 c),
              third.0 ((problem-empty more_text several).0 d),
            ),
            ids.0 (first.0 ((problem-empty orphan_text orphans).0 a)),
          ),
      λ (once_each, there).
          let (c, d) = counts.1 once_each in
          split.1 (
            split'.1 (
              (problem-empty orphan_text orphans).1 (first.1 (ids.1 there)),
              (problem-empty bare_text bare).1 (second.1 c),
            ),
            (problem-empty more_text several).1 (third.1 d),
          ),
    )

-- Where the receipts and the commands can be read, `checkCommandReceiptBijection` is healthy exactly
-- where every committed or compensated command has exactly one receipt and the command of every receipt
-- is committed or compensated.
pub check_command_receipt_bijection-IsBijection :
    (rs : List Receipt) (cs : List Command)
    → ((check_command_receipt_bijection (ok rs) (ok cs)).status ≡ healthy) ↔ IsBijection rs cs
unfolding check_command_receipt_bijection
check_command_receipt_bijection-IsBijection rs cs =
    let verdict = verdict-healthy rs cs (bijection_problems rs cs) in
    let problems = problems-empty rs cs in
    (λ h. problems.0 (verdict.0 h), λ h. verdict.1 (problems.1 h))
