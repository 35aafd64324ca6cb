-- ===== src/Ops/Appended.antt =====
-- A ledger that is only appended to stays one that its verifier accepts, and that is read as written.
use db_cluster.Prelude.{
  get_last?, String, none, some, List, [], ◌∷◌, ◌++◌, ◌==◌, ◌≡◌, inl, inr, refl, eq_iff, Bool-cases,
}
use db_cluster.StoreErrors.{return}
use db_cluster.Ledger.{
  Ledger, EventInput, ReceiptInput, assemble_event, assemble_receipt, push_event, push_receipt,
  append, append_receipt, get_event,
}
use db_cluster.Ledger.Types.{Sealed, event_sealed, receipt_sealed}
use db_cluster.Ledger.Log.{
  find_record, get_record, verify_found, verify_integrity, recompute, stamp, stamp_with,
  hash_before,
}
use db_cluster.Ops.Chain.{check_integrity_chain}
use db_cluster.Ops.Intact.{
  IsChain, NeverEmpty, IsChain-chain_issues, stamp-IsChain, stamp_with-recompute,
}

verify_found-intact :
    {A : Type 0} ⦃s : Sealed A⦄ (digest : String → String) (a : A)
    → recompute digest a ≡ s.hash_of a
    → verify_found digest (some a) ≡ return (some a)
unfolding verify_found verify_integrity
verify_found-intact ⦃s⦄ digest a h = rw ((eq_iff (recompute digest a) (s.hash_of a)).1 h) refl

stamp-intact :
    {A : Type 0} ⦃s : Sealed A⦄ (digest : String → String) (xs : List A) (a : A)
    → recompute digest (stamp digest xs a) ≡ s.hash_of (stamp digest xs a)
unfolding stamp
stamp-intact digest xs a = stamp_with-recompute digest (hash_before digest (get_last? xs)) a

find_record-append :
    {A : Type 0} ⦃s : Sealed A⦄ (id : String) (xs : List A) (a : A)
    → find_record id xs ≡ none
    → s.id_of a ≡ id
    → find_record id (xs ++ a ∷ []) ≡ some a
unfolding find_record
find_record-append id [] a h e = rw (e, (eq_iff id id).1 refl) refl
find_record-append ⦃s⦄ id (x ∷ xs) a h e = elim (Bool-cases (s.id_of x == id)) [
  | inl same ↦ absurd (cc (rw same at h))
  | inr other ↦ rw other (find_record-append id xs a (rw other at h) e)
]

module _ (digest cause : String → String) where
  -- One call of `append` or `appendReceipt`, whether or not it throws.
  pub data Append : Ledger → Ledger → Type 0 where
    event :
        (id now : String) (i : EventInput) (l : Ledger)
        → Append l (append digest cause id now i l).1
    receipt :
        (id now : String) (i : ReceiptInput) (l : Ledger)
        → Append l (append_receipt digest cause id now i l).1

  pub data Appends (l : Ledger) : Ledger → Type 0 where
    here : Appends l l
    after : {m n : Ledger} → Appends l m → Append m n → Appends l n

  -- the two chains hold
  abbrev pub IsSound : Ledger → Type 0
  IsSound l = IsChain digest none l.events × IsChain digest none l.receipts

  events-append :
      (id now : String) (i : EventInput) (l : Ledger)
      → (append digest cause id now i l).1.events
        ≡ l.events ++ stamp digest l.events (assemble_event id now i) ∷ []
  unfolding append push_event
  events-append id now i l = refl

  Append-IsSound : NeverEmpty digest → {l m : Ledger} → Append l m → IsSound l → IsSound m
  unfolding append append_receipt push_event push_receipt
  Append-IsSound never (event id now i l) (es, rs) =
      (stamp-IsChain digest never l.events (assemble_event id now i) es, rs)
  Append-IsSound never (receipt id now i l) (es, rs) =
      (es, stamp-IsChain digest never l.receipts (assemble_receipt id now i) rs)

  Appends-IsSound : NeverEmpty digest → {l m : Ledger} → Appends l m → IsSound l → IsSound m
  Appends-IsSound never here h = h
  Appends-IsSound never (after r step) h = Append-IsSound never step (Appends-IsSound never r h)

  -- Whatever is appended to a ledger whose chains hold, `checkIntegrityChain` finds no issue among its
  -- events, nor among its receipts, as long as no hash is the empty text.
  pub check_integrity_chain-Appends :
      NeverEmpty digest
      → {l m : Ledger} (r : Appends l m) → IsSound l
      → (check_integrity_chain digest m.events "event" ≡ [])
        × (check_integrity_chain digest m.receipts "receipt" ≡ [])
  unfolding check_integrity_chain
  check_integrity_chain-Appends never r h =
      let (es, rs) = Appends-IsSound never r h in
      (
        IsChain-chain_issues digest "event" none _ es,
        IsChain-chain_issues digest "receipt" none _ rs,
      )

  -- An event that is appended under a new id is read back under it, and the hash that `getEvent`
  -- computes again is the one that was stamped; so it is also where the file could not be written.
  get_event-append :
      (id now : String) (i : EventInput) (l : Ledger)
      → find_record id l.events ≡ none
      → get_event digest cause id (append digest cause id now i l).1
        ≡ return (some (stamp digest l.events (assemble_event id now i)))
  unfolding get_event get_record stamp stamp_with assemble_event
  get_event-append id now i l new =
      let e = stamp digest l.events (assemble_event id now i) in
      rw (events-append id now i l, find_record-append id l.events e new refl)
        (verify_found-intact digest e (stamp-intact digest l.events (assemble_event id now i)))
