-- ===== src/Ledger/Opening.antt =====
-- A start of the ledger on a torn file.
use db_cluster.Prelude.{
  ◌+◌, String, false, none, some, List, [], ◌∷◌, ◌++◌, ◌==◌, ◌≡◌, refl, ap, ap₂, ◌∙◌, map,
}
use db_cluster.StoreErrors.{return}
use db_cluster.Ledger.{Ledger, push_event}
use db_cluster.Ledger.Types.{Event, Receipt, event_sealed, receipt_sealed}
use db_cluster.Ledger.Log.{
  ndjson, record_line, broken_line, load_array, append_one, append_line, stamp,
}
use db_cluster.Ledger.Open.{
  tail_event, audit_tail, record_events_tail, record_receipts_tail, open_loaded, open_ledger,
}
use db_cluster.Ledger.Recovery.{
  HasIds, file_of, load_array-file_of, load_array-torn, HasIds-append, record_lines-append,
}

-- the ledger whose events file holds the events and a torn line, and whose receipts file the receipts
abbrev pub with_torn_events : String → List Event → List Receipt → Ledger → Ledger
with_torn_events junk es rs l = record l {
  events_file = ndjson (map record_line es) (some (broken_line junk));
  receipts_file = file_of rs;
}

module _ (digest cause : String → String) where
  -- Where the events file holds events and behind them a torn line, and neither of the two writes fails,
  -- the ledger opens with those events, then the event that records the repair, and the file holds
  -- exactly them: the next start discards nothing.
  open_ledger-torn :
      (id now id' now' junk : String) (x : Event) (xs : List Event) (rs : List Receipt) (l : Ledger)
      → HasIds (x ∷ xs)
      → HasIds rs
      → (id == "") ≡ false
      → l.fault l.writes ≡ none
      → l.fault (l.writes + 1) ≡ none
      → (m : Ledger) × (open_ledger digest cause id now id' now'
            (with_torn_events junk (x ∷ xs) rs l)
          ≡ return m)
        × (m.events ≡ (x ∷ xs) ++ stamp digest (x ∷ xs) (tail_event id now l.events_path 1) ∷ [])
        × (m.receipts ≡ rs)
        × (load_array m.events_path m.events_file
            ≡ return (record { records = m.events; discarded = 0 }))
  unfolding open_ledger open_loaded record_events_tail record_receipts_tail audit_tail push_event
      append_one append_line
  open_ledger-torn id now id' now' junk x xs rs l h k named calm calm' =
      let a = stamp digest (x ∷ xs) (tail_event id now l.events_path 1) in
      (
        record l {
          events = (x ∷ xs) ++ a ∷ [];
          receipts = rs;
          events_file = ndjson (map record_line (x ∷ xs) ++ record_line a ∷ []) none;
          receipts_file = file_of rs;
          writes = l.writes + 1 + 1;
        },
        ap₂ (open_loaded digest cause id now id' now' (with_torn_events junk (x ∷ xs) rs l))
              (load_array-torn l.events_path junk x xs h) (load_array-file_of l.receipts_path rs k)
            ∙ rw (calm, calm') refl,
        refl,
        refl,
        ap (λ ls. load_array l.events_path (ndjson ls none)) (record_lines-append (x ∷ xs) a)
            ∙ load_array-file_of l.events_path ((x ∷ xs) ++ a ∷ [])
                (HasIds-append (x ∷ xs) a h named),
      )
