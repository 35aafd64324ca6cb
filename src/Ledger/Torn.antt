-- ===== src/Ledger/Torn.antt =====
-- What becomes of a torn tail that appends follow.
use db_cluster.Prelude.{
  ℕ, suc, ◌+◌, String, true, false, Option, none, some, List, [], ◌∷◌, ◌++◌, ◌==◌, ◌≡◌, refl, sym,
  ap, ◌∙◌, subst, arith, map, length, get_last?, ltb,
}
use mathlib.Core.List.{append_assoc}
use db_cluster.StoreErrors.{StoreError, throw}
use db_cluster.Ledger.Types.{Sealed}
use db_cluster.Ledger.Log.{
  LogFile, ndjson, record_line, broken_line, Scan, torn_write, bad_line, scan_lines, empty_scan,
  conclude, conclude_scan, conclude_bad, load_array, append_one, append_line, tear_file,
}
use db_cluster.Ledger.Recovery.{HasIds, file_of, scan_lines-records, scan_line-record_line, number}

get_last?-append : {B : Type 0} (xs : List B) (b : B) → get_last? (xs ++ b ∷ []) ≡ some b
get_last?-append [] b = refl
get_last?-append (x ∷ []) b = refl
get_last?-append (x ∷ y ∷ xs) b = get_last?-append (y ∷ xs) b

module _ {A : Type 0} ⦃s : Sealed A⦄ where
  -- the file behind a write that was torn and two that were not
  unfoldable pub torn_then_two : (cause text : String) → A → A → A → LogFile A → LogFile A
  unfolding append_one
  torn_then_two cause text a b d file =
      (append_one cause d
        (append_one cause b (append_one cause a file (some (torn_write text))).1 none).1 none).1

  lines_of-torn :
      (cause text : String) (xs : List A) (a b d : A)
      → torn_then_two cause text a b d (file_of xs)
        ≡ ndjson (map record_line xs ++ broken_line cause ∷ record_line d ∷ []) none
  unfolding torn_then_two append_one append_line tear_file
  lines_of-torn cause text xs a b d =
      ap (λ ls. ndjson ls none)
        (append_assoc (map record_line xs) (broken_line cause ∷ []) (record_line d ∷ []))

  conclude_bad-early :
      (path cause : String) (i : ℕ) (sc : Scan A) (last : Option (ℕ × A)) (p : ℕ × A)
      → last ≡ some p
      → ltb i p.0 ≡ true
      → (e : StoreError) × (conclude_bad path i cause sc last ≡ throw e)
  conclude_bad-early path cause i sc last p e early =
      subst (λ l. (e : StoreError) × (conclude_bad path i cause sc l ≡ throw e)) (sym e)
        (rw early (_, refl))

  -- A file of records in which one write was torn, and that is appended to twice afterwards, both times
  -- with success, does not load any more: the first record of the two stands on the torn line, and the
  -- second one behind it makes the torn line one that is surrounded.
  pub load_array-torn_then_two :
      (path cause text : String) (xs : List A) (a b d : A)
      → HasIds xs
      → (s.id_of d == "") ≡ false
      → (e : StoreError) × (load_array path (torn_then_two cause text a b d (file_of xs)) ≡ throw e)
  unfolding load_array scan_lines conclude_scan
  load_array-torn_then_two path cause text xs a b d h named =
      let n = 0 + length xs in
      let torn = bad_line n cause (record empty_scan { parsed = number 0 xs }) in
      let last = number 0 xs ++ (suc n, d) ∷ [] in
      let (e, same) =
        conclude_bad-early path cause n (record torn { parsed = last }) (get_last? last) (suc n, d)
          (get_last?-append (number 0 xs) (suc n, d)) (ground arith) in
      (
        e,
        ap (load_array path) (lines_of-torn cause text xs a b d)
            ∙ ap (conclude path)
                (scan_lines-records 0 xs (broken_line cause ∷ record_line d ∷ []) empty_scan h)
            ∙ ap (conclude path) (scan_line-record_line (suc n) d torn named)
            ∙ same,
      )
