-- ===== src/Ledger/Recovery.antt =====
-- What is loaded from a file of lines, whichever way the last write went.
use db_cluster.Prelude.{
  ℕ, suc, ◌+◌, ◌<◌, String, Bool, true, false, Option, none, some, List, [], ◌∷◌, ◌++◌, ◌==◌, ◌≡◌,
  refl, sym, ap, ap₂, ◌∙◌, arith, map, length, get_last?, All, ltb, if◌then◌else◌,
}
use mathlib.Core.List.{append_assoc, append-nil}
use db_cluster.Json.{template, decimal}
use db_cluster.StoreErrors.{corrupt_store, throw, return}
use db_cluster.Ledger.Types.{Sealed}
use db_cluster.Ledger.Log.{
  Line, record_line, broken_line, LogFile, ndjson, Fault, refused, torn_write, unended, cut_file,
  Loaded, Scan, bad_line, scan_line, scan_lines, empty_scan, conclude, conclude_scan, conclude_bad,
  load_array, append_one, append_line, tear_file, values,
}

-- whether the text of the record came to the file whole
abbrev pub is_whole : Option Fault → Bool
is_whole none = true
is_whole (some (refused text)) = false
is_whole (some (torn_write text)) = false
is_whole (some (unended text)) = true

module _ {A : Type 0} ⦃s : Sealed A⦄ where
  -- every record has an id
  abbrev pub HasIds : List A → Type 0
  HasIds xs = All (λ a. (s.id_of a == "") ≡ false) xs

  -- the file that holds the records, one to a line
  abbrev pub file_of : List A → LogFile A
  file_of xs = ndjson (map record_line xs) none

  pub number : ℕ → List A → List (ℕ × A)
  number i [] = []
  number i (x ∷ xs) = (i, x) ∷ number (suc i) xs

  values-number : (i : ℕ) (xs : List A) → values (number i xs) ≡ xs
  unfolding number
  values-number i [] = refl
  values-number i (x ∷ xs) = ap (λ r. x ∷ r) (values-number (suc i) xs)

  pub scan_line-record_line :
      (i : ℕ) (x : A) (sc : Scan A)
      → (s.id_of x == "") ≡ false
      → scan_line i (record_line x) sc ≡ record sc { parsed = sc.parsed ++ (i, x) ∷ [] }
  unfolding scan_line
  scan_line-record_line i x sc has_id = rw has_id refl

  pub scan_lines-records :
      (i : ℕ) (xs : List A) (ls : List (Line A)) (sc : Scan A)
      → HasIds xs
      → scan_lines i (map record_line xs ++ ls) sc
        ≡ scan_lines (i + length xs) ls (record sc { parsed = sc.parsed ++ number i xs })
  unfolding scan_lines number
  scan_lines-records i [] ls sc h =
      ap₂ (λ j ps. scan_lines j ls (record sc { parsed = ps })) (omega arith)
        (sym (append-nil sc.parsed))
  scan_lines-records i (x ∷ xs) ls sc (has_id, h) =
      ap (scan_lines (suc i) (map record_line xs ++ ls)) (scan_line-record_line i x sc has_id)
      ∙ scan_lines-records (suc i) xs ls (record sc { parsed = sc.parsed ++ (i, x) ∷ [] }) h
      ∙ ap₂ (λ j ps. scan_lines j ls (record sc { parsed = ps })) (omega arith)
          (append_assoc sc.parsed ((i, x) ∷ []) (number (suc i) xs))

  pub load_array-file_of :
      (path : String) (xs : List A)
      → HasIds xs
      → load_array path (file_of xs) ≡ return (record { records = xs; discarded = 0 })
  unfolding load_array scan_lines conclude_scan
  load_array-file_of path xs h =
      ap (conclude path) (
        ap (λ ls. scan_lines 0 ls empty_scan) (sym (append-nil (map record_line xs)))
        ∙ scan_lines-records 0 xs [] empty_scan h)
      ∙ ap (λ rs. return (record { records = rs; discarded = 0 })) (values-number 0 xs)

  last_number :
      (i : ℕ) (x : A) (xs : List A)
      → (p : ℕ × A) × (get_last? (number i (x ∷ xs)) ≡ some p) × (p.0 < i + length (x ∷ xs))
  unfolding number
  last_number i x [] = ((i, x), refl, omega arith)
  last_number i x (y ∷ ys) = let (p, e, lt) = last_number (suc i) y ys in (p, e, omega arith)

  conclude_bad-late :
      (path cause : String) (i : ℕ) (sc : Scan A) (last : Option (ℕ × A)) (p : ℕ × A)
      → (last ≡ some p)
      → (ltb i p.0 ≡ false)
      → conclude_bad path i cause sc last
        ≡ return (record { records = values sc.parsed; discarded = sc.discarded_count })
  conclude_bad-late path cause i sc last p e late =
      ap (conclude_bad path i cause sc) e
      ∙ ap
          (λ t.
            if t
            then throw (
                corrupt_store path (
                  template (
                    "Unparseable line at offset "
                    ∷ decimal i
                    ∷ " surrounded by valid lines (last good at "
                    ∷ decimal p.0
                    ∷ ") — file is structurally corrupt."
                    ∷ [])))
            else return (record { records = values sc.parsed; discarded = sc.discarded_count }))
          late

  pub load_array-torn :
      (path cause : String) (x : A) (xs : List A)
      → HasIds (x ∷ xs)
      → load_array path (ndjson (map record_line (x ∷ xs)) (some (broken_line cause)))
        ≡ return (record { records = x ∷ xs; discarded = 1 })
  unfolding load_array scan_lines scan_line conclude_scan
  load_array-torn path cause x xs h =
      let n = 0 + length (x ∷ xs) in
      let sc = bad_line n cause (record empty_scan { parsed = number 0 (x ∷ xs) }) in
      let (p, last, lt) = last_number 0 x xs in
      ap (conclude path) (scan_lines-records 0 (x ∷ xs) (broken_line cause ∷ []) empty_scan h)
      ∙ conclude_bad-late path cause n sc (get_last? sc.parsed) p last (ground arith)
      ∙ ap (λ rs. return (record { records = rs; discarded = 1 })) (values-number 0 (x ∷ xs))

  pub HasIds-append :
      (xs : List A) (a : A) → HasIds xs → (s.id_of a == "") ≡ false → HasIds (xs ++ a ∷ [])
  HasIds-append [] a h k = (k, tt)
  HasIds-append (x ∷ xs) a (h, hs) k = (h, HasIds-append xs a hs k)

  pub record_lines-append :
      (xs : List A) (a : A)
      → map record_line xs ++ record_line a ∷ [] ≡ map record_line (xs ++ a ∷ [])
  record_lines-append [] a = refl
  record_lines-append (x ∷ xs) a = ap (λ ls. record_line x ∷ ls) (record_lines-append xs a)

  load_array-unended :
      (path : String) (xs : List A) (a : A)
      → HasIds (xs ++ a ∷ [])
      → load_array path (ndjson (map record_line xs) (some (record_line a)))
        ≡ return (record { records = xs ++ a ∷ []; discarded = 0 })
  unfolding load_array
  load_array-unended path xs a h =
      ap (λ ls. load_array path (ndjson ls none)) (record_lines-append xs a)
      ∙ load_array-file_of path (xs ++ a ∷ []) h

  -- However the write of a record goes, a file that holds records, at least one, loads again: to the old
  -- records and the new one where the text of the new one came to the file whole, if only its newline is
  -- missing, and to exactly the old ones where nothing or a part of it was written.
  pub load_array-append_one :
      (path cause : String) (x : A) (xs : List A) (a : A) (fault : Option Fault)
      → HasIds (x ∷ xs)
      → (s.id_of a == "") ≡ false
      → (r : Loaded A) × (load_array path (append_one cause a (file_of (x ∷ xs)) fault).1
          ≡ return r)
        × (r.records ≡ (if is_whole fault then (x ∷ xs) ++ a ∷ [] else x ∷ xs))
  unfolding append_one append_line tear_file cut_file
  load_array-append_one path cause x xs a none h k = (
    record { records = (x ∷ xs) ++ a ∷ []; discarded = 0 },
    ap (λ ls. load_array path (ndjson ls none)) (record_lines-append (x ∷ xs) a)
        ∙ load_array-file_of path ((x ∷ xs) ++ a ∷ []) (HasIds-append (x ∷ xs) a h k),
    refl,
  )
  load_array-append_one path cause x xs a (some (refused text)) h k =
      (record { records = x ∷ xs; discarded = 0 }, load_array-file_of path (x ∷ xs) h, refl)
  load_array-append_one path cause x xs a (some (torn_write text)) h k =
      (record { records = x ∷ xs; discarded = 1 }, load_array-torn path cause x xs h, refl)
  load_array-append_one path cause x xs a (some (unended text)) h k = (
    record { records = (x ∷ xs) ++ a ∷ []; discarded = 0 },
    load_array-unended path (x ∷ xs) a (HasIds-append (x ∷ xs) a h k),
    refl,
  )
