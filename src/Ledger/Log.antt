-- ===== src/Ledger/Log.antt =====
-- One chain of the ledger and its file: src/adapters/local/local-ledger-store.ts, where each of these
-- operations is written for the events and again for the receipts.
use db_cluster.Prelude.{
  ℕ, zero, suc, ◌+◌, String, Bool, not, Option, none, some, List, [], ◌∷◌, ◌++◌, ◌==◌, map, find,
  length, get_last?, leb, ltb, if◌then◌else◌,
}
use db_cluster.Json.{template, decimal}
use db_cluster.StoreErrors.{corrupt_store, ledger_integrity, write_failed, Reply, throw, return}
use db_cluster.Integrity.{utf16, units_le, compute_integrity_hash}
use db_cluster.Ledger.Types.{Sealed}

-- `earlier < later` on strings
unfoldable pub earlier : String → String → Bool
unfolding utf16 units_le
earlier s t = not (units_le (utf16 t) (utf16 s))

-- What `JSON.parse` makes of a line of the file: nothing to read, a syntax error with its message, a
-- value that is no object with its type, or a record. Where a record has no id that is a string, its id
-- is "".
pub data Line (A : Type 0) : Type 0 where
  blank_line : Line A
  broken_line : String → Line A
  foreign_line : String → Line A
  record_line : A → Line A

-- A file: not there, not readable, one array (whole, or with more text behind it), or lines. `torn` is
-- what stands behind the last newline.
pub data LogFile (A : Type 0) : Type 0 where
  missing : LogFile A
  unreadable : String → LogFile A
  array : List A → LogFile A
  broken_array : String → LogFile A
  ndjson : List (Line A) → (torn : Option (Line A)) → LogFile A

-- How a write goes wrong: nothing is written, a part of the record's text, or all of it but not the
-- newline.
pub data Fault : Type 0 where
  refused : String → Fault
  torn_write : String → Fault
  unended : String → Fault

-- Loaded records, and the number of lines that were discarded at the end of the file.
pub record Loaded (A : Type 0) : Type 0 where
  pub records : List A
  pub discarded : ℕ

-- The state of the loop of `loadArray`: the records with their line numbers, and the first bad line.
pub record Scan (A : Type 0) : Type 0 where
  pub parsed : List (ℕ × A)
  pub first_bad : Option (ℕ × String)
  pub discarded_count : ℕ

abbrev pub bad_line : {A : Type 0} → ℕ → String → Scan A → Scan A
bad_line i cause s = record s {
  first_bad = elim s.first_bad [ none ↦ some (i, cause) | some b ↦ some b ];
  discarded_count = s.discarded_count + 1;
}

module _ {A : Type 0} ⦃s : Sealed A⦄ where
  -- the body of the loop of `loadArray`
  unfoldable pub scan_line : ℕ → Line A → Scan A → Scan A
  scan_line i blank_line sc = sc
  scan_line i (broken_line cause) sc = bad_line i cause sc
  scan_line i (foreign_line type) sc =
      bad_line i (template ("expected JSON object per NDJSON line, got " ∷ type ∷ [])) sc
  scan_line i (record_line a) sc =
      if s.id_of a == ""
      then bad_line i
          "expected ledger record with non-empty string `id` field; got line missing or empty id" sc
      else record sc { parsed = sc.parsed ++ (i, a) ∷ [] }

  unfoldable pub scan_lines : ℕ → List (Line A) → Scan A → Scan A
  unfolding scan_line
  scan_lines i [] sc = sc
  scan_lines i (l ∷ ls) sc = scan_lines (suc i) ls (scan_line i l sc)

  abbrev pub values : List (ℕ × A) → List A
  values ps = map (λ (p : ℕ × A). p.1) ps

  -- the end of `loadArray`, where there is a bad line, by the last good one
  abbrev pub conclude_bad : String → ℕ → String → Scan A → Option (ℕ × A) → Reply (Loaded A)
  conclude_bad path i cause sc none = throw (corrupt_store path cause)
  conclude_bad path i cause sc (some last) =
      if ltb i last.0
      then throw (
          corrupt_store path (
            template (
              "Unparseable line at offset "
              ∷ decimal i
              ∷ " surrounded by valid lines (last good at "
              ∷ decimal last.0
              ∷ ") — file is structurally corrupt."
              ∷ [])))
      else return (record { records = values sc.parsed; discarded = sc.discarded_count })

  -- the end of `loadArray`
  unfoldable pub conclude_scan : String → Scan A → Option (ℕ × String) → Reply (Loaded A)
  conclude_scan path sc none = return (record { records = values sc.parsed; discarded = 0 })
  conclude_scan path sc (some bad) = conclude_bad path bad.0 bad.1 sc (get_last? sc.parsed)

  abbrev pub all_lines : List (Line A) → Option (Line A) → List (Line A)
  all_lines ls none = ls
  all_lines ls (some l) = ls ++ l ∷ []

  abbrev pub empty_scan : Scan A
  empty_scan = record { parsed = []; first_bad = none; discarded_count = 0 }

  abbrev pub conclude : String → Scan A → Reply (Loaded A)
  conclude path sc = conclude_scan path sc sc.first_bad

  -- `loadArray`
  unfoldable pub load_array : String → LogFile A → Reply (Loaded A)
  unfolding scan_lines conclude_scan
  load_array path missing = return (record { records = []; discarded = 0 })
  load_array path (unreadable cause) = throw (corrupt_store path cause)
  load_array path (array xs) = return (record { records = xs; discarded = 0 })
  load_array path (broken_array cause) = throw (corrupt_store path cause)
  load_array path (ndjson ls torn) = conclude path (scan_lines 0 (all_lines ls torn) empty_scan)

  -- The file behind `appendFileSync` of a line. `cause` is the message of `JSON.parse` for a text with
  -- more behind its end.
  unfoldable pub append_line : (cause : String) → A → LogFile A → LogFile A
  append_line cause a missing = ndjson (record_line a ∷ []) none
  append_line cause a (unreadable c) = unreadable c
  append_line cause a (array xs) = broken_array cause
  append_line cause a (broken_array c) = broken_array c
  append_line cause a (ndjson ls none) = ndjson (ls ++ record_line a ∷ []) none
  append_line cause a (ndjson ls (some blank_line)) = ndjson (ls ++ record_line a ∷ []) none
  append_line cause a (ndjson ls (some l)) = ndjson (ls ++ broken_line cause ∷ []) none

  -- the file behind a write of a part of a line
  unfoldable pub tear_file : (cause : String) → LogFile A → LogFile A
  tear_file cause missing = ndjson [] (some (broken_line cause))
  tear_file cause (unreadable c) = unreadable c
  tear_file cause (array xs) = broken_array cause
  tear_file cause (broken_array c) = broken_array c
  tear_file cause (ndjson ls torn) = ndjson ls (some (broken_line cause))

  -- the file behind a write of a line without its newline
  unfoldable pub cut_file : (cause : String) → A → LogFile A → LogFile A
  cut_file cause a missing = ndjson [] (some (record_line a))
  cut_file cause a (unreadable c) = unreadable c
  cut_file cause a (array xs) = broken_array cause
  cut_file cause a (broken_array c) = broken_array c
  cut_file cause a (ndjson ls none) = ndjson ls (some (record_line a))
  cut_file cause a (ndjson ls (some blank_line)) = ndjson ls (some (record_line a))
  cut_file cause a (ndjson ls (some l)) = ndjson ls (some (broken_line cause))

  -- `appendOneEvent` and `appendOneReceipt`, by how the write goes
  unfoldable pub append_one : (cause : String) → A → LogFile A → Option Fault → Reply A × LogFile A
  unfolding append_line tear_file cut_file
  append_one cause a file none = (return a, append_line cause a file)
  append_one cause a file (some (refused text)) = (throw (write_failed text), file)
  append_one cause a file (some (torn_write text)) =
      (throw (write_failed text), tear_file cause file)
  append_one cause a file (some (unended text)) = (throw (write_failed text), cut_file cause a file)

  -- `find((e) => e.id === id)`
  unfoldable pub find_record : String → List A → Option A
  find_record id xs = find (λ (a : A). s.id_of a == id) xs

  -- the last `n` records: `slice(-n)`
  unfoldable pub take_last : ℕ → List A → List A
  take_last n [] = []
  take_last n (x ∷ xs) =
      let rest = take_last n xs in if leb (length (x ∷ xs)) n then x ∷ xs else rest

  unfoldable pub limited : Option ℕ → List A → List A
  unfolding take_last
  limited none xs = xs
  limited (some zero) xs = xs
  limited (some (suc n)) xs = take_last (suc n) xs

  abbrev pub found : Reply A → Reply (Option A)
  found (return a) = return (some a)
  found (throw e) = throw e

  module _ (digest : String → String) where
    -- `computeIntegrityHash(record)`
    unfoldable pub recompute : A → String
    recompute a = compute_integrity_hash digest (s.fields_of a)

    -- the hash of the record before, where it has one
    unfoldable pub hash_before : Option A → Option String
    hash_before none = none
    hash_before (some prev) = if s.hash_of prev == "" then none else some (s.hash_of prev)

    -- `stampEventIntegrity` and `stampReceiptIntegrity`, by the hash of the last record
    unfoldable pub stamp_with : Option String → A → A
    unfolding recompute
    stamp_with prev a = s.seal prev (recompute (s.seal prev "" a)) a

    unfoldable pub stamp : List A → A → A
    unfolding stamp_with hash_before
    stamp xs a = stamp_with (hash_before (get_last? xs)) a

    -- `verifyEventIntegrity` and `verifyReceiptIntegrity`
    unfoldable pub verify_integrity : A → Reply A
    unfolding recompute
    verify_integrity a =
        if recompute a == s.hash_of a
        then return a
        else throw (ledger_integrity s.kind_name (s.id_of a) (s.hash_of a) (recompute a))

    -- `getEvent` and `getReceipt`, by what `find` gives
    unfoldable pub verify_found : Option A → Reply (Option A)
    unfolding verify_integrity
    verify_found none = return none
    verify_found (some a) = found (verify_integrity a)

    unfoldable pub get_record : String → List A → Reply (Option A)
    unfolding find_record verify_found
    get_record id xs = verify_found (find_record id xs)

    -- `reconcileImportedEventIntegrity` and `reconcileImportedReceiptIntegrity`; a hash that is missing
    -- is ""
    unfoldable pub reconcile : A → Reply A
    unfolding recompute verify_integrity
    reconcile a =
        if s.hash_of a == ""
        then return (s.seal (s.prev_of a) (recompute a) a)
        else verify_integrity a
