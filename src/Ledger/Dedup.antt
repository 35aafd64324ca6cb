-- ===== src/Ledger/Dedup.antt =====
-- The recovery of an active file against its archive keeps exactly the records since the boundary.
use db_cluster.Prelude.{
  String, Bool, false, not, some, List, [], ◌∷◌, ◌==◌, ◌≡◌, inl, inr, refl, sym, ap, ◌∙◌, arith,
  eq_iff, map, filter, includes, is_empty, All, Bool-cases, if◌then◌else◌,
}
use db_cluster.Ledger.Types.{Sealed, event_sealed, receipt_sealed}
use db_cluster.Ledger.Log.{record_line, earlier}
use db_cluster.Ledger.Recovery.{HasIds}
use db_cluster.Ledger.Rotate.{
  Archive, serialize_ndjson, archived_before, retained_since, lines_at, read_ndjson_ids, keeps_line,
  dedup_active_against_archive, put_archive,
}

eq_comm : (s t : String) → (s == t) ≡ (t == s)
eq_comm s t = ground (arith, eq_iff s t, eq_iff t s)

module _ {A : Type 0} ⦃s : Sealed A⦄ where
  -- no two records have the same id
  abbrev pub IsDistinct : List A → Type 0
  IsDistinct [] = Unit
  IsDistinct (x ∷ xs) = All (λ a. (s.id_of a == s.id_of x) ≡ false) xs × IsDistinct xs

  filter-keeps_none :
      (xs : List A) → filter (keeps_line []) (map record_line xs) ≡ map record_line xs
  unfolding keeps_line
  filter-keeps_none [] = refl
  filter-keeps_none (x ∷ xs) = ap (λ ls. record_line x ∷ ls) (filter-keeps_none xs)

  kept_by :
      (ids : List String) (xs : List A)
      → (if is_empty ids
          then some (map record_line xs)
          else some (filter (keeps_line ids) (map record_line xs)))
        ≡ some (filter (keeps_line ids) (map record_line xs))
  kept_by [] xs = ap some (sym (filter-keeps_none xs))
  kept_by (i ∷ ids) xs = refl

  -- the ids that `p` picks
  abbrev picked : (A → Bool) → List A → List String
  picked p xs = read_ndjson_ids (map record_line (filter p xs))

  read_ndjson_ids-cons :
      (p : A → Bool) (x : A) (xs : List A)
      → (s.id_of x == "") ≡ false
      → picked p (x ∷ xs) ≡ (if p x then s.id_of x ∷ picked p xs else picked p xs)
  unfolding read_ndjson_ids
  read_ndjson_ids-cons p x xs named = elim (Bool-cases (p x)) [
    | inl e ↦ rw (e, named) refl
    | inr e ↦ rw e refl
  ]

  picked-other :
      (p : A → Bool) (i : String) (xs : List A)
      → HasIds xs
      → All (λ a. (s.id_of a == i) ≡ false) xs
      → includes (picked p xs) i ≡ false
  unfolding read_ndjson_ids
  picked-other p i [] h d = refl
  picked-other p i (x ∷ xs) (named, h) (other, d) =
      rw (read_ndjson_ids-cons p x xs named) (elim (Bool-cases (p x)) [
        | inl e ↦ rw (e, other) (picked-other p i xs h d)
        | inr e ↦ rw e (picked-other p i xs h d)
      ])

  -- behind a record of another id
  picked-behind :
      (p : A → Bool) (x : A) (xs ys : List A)
      → (s.id_of x == "") ≡ false
      → All (λ a. (s.id_of a == s.id_of x) ≡ false) ys
      → All (λ a. includes (picked p xs) (s.id_of a) ≡ p a) ys
      → All (λ a. includes (picked p (x ∷ xs)) (s.id_of a) ≡ p a) ys
  picked-behind p x xs [] named d h = tt
  picked-behind p x xs (y ∷ ys) named (other, d) (own, h) = (
    rw (read_ndjson_ids-cons p x xs named) (elim (Bool-cases (p x)) [
      | inl e ↦ rw (e, eq_comm (s.id_of x) (s.id_of y), other) own
      | inr e ↦ rw e own
    ]),
    picked-behind p x xs ys named d h,
  )

  includes-picked :
      (p : A → Bool) (xs : List A)
      → HasIds xs
      → IsDistinct xs
      → All (λ a. includes (picked p xs) (s.id_of a) ≡ p a) xs
  includes-picked p [] h d = tt
  includes-picked p (x ∷ xs) (named, h) (other, d) = (
    rw (read_ndjson_ids-cons p x xs named) (elim (Bool-cases (p x)) [
      | inl e ↦ rw (e, (eq_iff (s.id_of x) (s.id_of x)).1 refl) refl
      | inr e ↦ rw e (picked-other p (s.id_of x) xs h other)
    ]),
    picked-behind p x xs xs named other (includes-picked p xs h d),
  )

  filter-keeps :
      (p : A → Bool) (ids : List String) (xs : List A)
      → All (λ a. includes ids (s.id_of a) ≡ p a) xs
      → (filter (keeps_line ids) (map record_line xs)
          ≡ map record_line (filter (λ a. not (p a)) xs))
        × (filter (keeps_line ids) (map record_line (filter (λ a. not (p a)) xs))
            ≡ map record_line (filter (λ a. not (p a)) xs))
  unfolding keeps_line
  filter-keeps p ids [] h = (refl, refl)
  filter-keeps p ids (x ∷ xs) (own, h) =
      let (whole, rest) = filter-keeps p ids xs h in
      elim (Bool-cases (p x)) [
        | inl e ↦ rw (own, e) (whole, rest)
        | inr e ↦
            rw (own, e)
              (
                ap (λ ls. record_line x ∷ ls) whole,
                rw (own, e) (ap (λ ls. record_line x ∷ ls) rest),
              )
      ]

  -- Recovery leaves the retained records, whether or not the active file was renamed.
  pub dedup-retained :
      (before : String) (xs : List A)
      → HasIds xs
      → IsDistinct xs
      → (dedup_active_against_archive
            (some (serialize_ndjson xs))
            (serialize_ndjson (archived_before before xs))
          ≡ some (serialize_ndjson (retained_since before xs)))
        × (dedup_active_against_archive
              (some (serialize_ndjson (retained_since before xs)))
              (serialize_ndjson (archived_before before xs))
            ≡ some (serialize_ndjson (retained_since before xs)))
  unfolding dedup_active_against_archive archived_before retained_since
  dedup-retained before xs h d =
      let p = λ (a : A). earlier (s.time_of a) before in
      let ids = picked p xs in
      let (whole, rest) = filter-keeps p ids xs (includes-picked p xs h d) in
      (kept_by ids xs ∙ ap some whole, kept_by ids (filter (λ a. not (p a)) xs) ∙ ap some rest)

  pub lines_at-put_archive :
      (path : String) (xs : List A) (fs : List (Archive A))
      → lines_at path fs ≡ []
      → lines_at path (put_archive path xs fs) ≡ serialize_ndjson xs
  unfolding lines_at
  lines_at-put_archive path [] fs new = new
  lines_at-put_archive path (x ∷ xs) fs new = rw ((eq_iff path path).1 refl) refl
