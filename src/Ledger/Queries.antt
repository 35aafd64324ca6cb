-- ===== src/Ledger/Queries.antt =====
-- The queries of the ledger: the count against the list, and the limit.
use db_cluster.Prelude.{
  ℕ, suc, ◌+◌, String, Bool, true, not, Option, none, some, List, [], ◌∷◌, ◌++◌, ◌==◌, ◌≡◌, inl,
  inr, refl, sym, ap, ◌∙◌, arith, filter, length, leb, Bool-cases, if◌then◌else◌,
}
use db_cluster.Ledger.{Ledger, LedgerFilter, as_asked, keep, list_events, count_from, count_events}
use db_cluster.Ledger.Types.{Sealed, Event, event_sealed}
use db_cluster.Ledger.Log.{earlier, limited, take_last}

filter-all : {A : Type 0} (xs : List A) → filter (λ a. true) xs ≡ xs
filter-all [] = refl
filter-all (x ∷ xs) = ap (λ r. x ∷ r) (filter-all xs)

keep-filter :
    {A : Type 0} (o : Option String) (test : String → A → Bool) (xs : List A)
    → keep o test xs ≡ filter (λ a. as_asked o (λ s. test s a)) xs
keep-filter none test xs = sym (filter-all xs)
keep-filter (some s) test xs = elim (Bool-cases (s == "")) [
  | inl e ↦ rw e (sym (filter-all xs))
  | inr e ↦ rw e refl
]

-- the three tests of a filter
abbrev on_subject : LedgerFilter → Event → Bool
on_subject f e = as_asked f.subject_id (λ s. e.subject_id == s)

abbrev on_action : LedgerFilter → Event → Bool
on_action f e = as_asked f.action (λ s. e.action == s)

abbrev on_time : LedgerFilter → Event → Bool
on_time f e = as_asked f.since (λ s. not (earlier e.timestamp s))

abbrev matching : LedgerFilter → List Event → List Event
matching f es = filter (on_time f) (filter (on_action f) (filter (on_subject f) es))

list_events-matching :
    (f : LedgerFilter) (l : Ledger) → list_events f l ≡ limited f.limit (matching f l.events)
unfolding list_events
list_events-matching f l = ap (limited f.limit) (
    keep-filter f.since (λ s (e : Event). not (earlier e.timestamp s)) _
    ∙ ap (filter (on_time f)) (
        keep-filter f.action (λ s (e : Event). e.action == s) _
        ∙ ap (filter (on_action f))
            (keep-filter f.subject_id (λ s (e : Event). e.subject_id == s) _)))

count_from-matching :
    (f : LedgerFilter) (n : ℕ) (es : List Event) → count_from f n es ≡ n + length (matching f es)
unfolding count_from
count_from-matching f n [] = omega arith
count_from-matching f n (e ∷ es) = elim (Bool-cases (on_subject f e)) [
  | inr a ↦ rw a (count_from-matching f n es)
  | inl a ↦ elim (Bool-cases (on_action f e)) [
    | inr b ↦ rw (a, b) (count_from-matching f n es)
    | inl b ↦ elim (Bool-cases (on_time f e)) [
      | inr c ↦ rw (a, b, c) (count_from-matching f n es)
      | inl c ↦ rw (a, b, c) (count_from-matching f (n + 1) es ∙ omega arith)
    ]
  ]
]

-- `countEvents` counts, without a list, exactly the events that `listEvents` lists for the same filter
-- without a limit.
count_events-list_events :
    (f : LedgerFilter) (l : Ledger)
    → count_events (some f) l ≡ length (list_events (record f { limit = none }) l)
unfolding count_events limited
count_events-list_events f l =
    count_from-matching f 0 l.events
    ∙ rw (list_events-matching (record f { limit = none }) l) (omega arith)

-- the smaller number
abbrev pub at_most : ℕ → ℕ → ℕ
at_most n m = if leb m n then m else n

take_last-length :
    {A : Type 0} ⦃s : Sealed A⦄ (n : ℕ) (xs : List A)
    → length (take_last n xs) ≡ at_most n (length xs)
unfolding take_last
take_last-length n [] = ground arith
take_last-length n (x ∷ xs) = ground (arith, take_last-length n xs)

take_last-end :
    {A : Type 0} ⦃s : Sealed A⦄ (n : ℕ) (xs : List A)
    → (dropped : List A) × (xs ≡ dropped ++ take_last n xs)
unfolding take_last
take_last-end n [] = ([], refl)
take_last-end n (x ∷ xs) = elim (Bool-cases (leb (suc (length xs)) n)) [
  | inl all ↦ rw all ([], refl)
  | inr more ↦ let (dropped, e) = take_last-end n xs in rw more (x ∷ dropped, ap (λ r. x ∷ r) e)
]

-- With a limit of n, which is not 0, `listEvents` gives the newest events of what it gives without one:
-- the end of that list, all of it where it has at most n events and n of them otherwise.
list_events-limit :
    (f : LedgerFilter) (n : ℕ) (l : Ledger)
    → f.limit ≡ some (suc n)
    → (dropped : List Event) × (list_events (record f { limit = none }) l
        ≡ dropped ++ list_events f l)
      × (length (list_events f l)
          ≡ at_most (suc n) (length (list_events (record f { limit = none }) l)))
unfolding limited
list_events-limit f n l h =
    let (dropped, e) = take_last-end (suc n) (matching f l.events) in
    rw (list_events-matching f l, list_events-matching (record f { limit = none }) l, h)
      (dropped, e, take_last-length (suc n) (matching f l.events))
