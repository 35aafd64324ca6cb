-- ===== src/Keyed/Laws.antt =====
-- The map of a store by its ids, and what its file gives back.
use db_cluster.Prelude.{
  String, Bool, true, false, not, none, some, List, [], ◌∷◌, ◌++◌, ◌==◌, ◌≡◌, ◌∙◌, refl, sym, arith,
  eq_iff, all, All, ap, ap₂, map, if◌then◌else◌, inl, inr, Bool-cases,
}
use mathlib.Core.List.{append-nil, append_assoc}
use db_cluster.Keyed.{
  Table, StoreError, stored, throw, return, find_row, set_row, delete_row, rows_of, load_rows,
  replace_file, persist_rows,
}

module _ {A : Type 0} (key : A → String) where
  -- no row has the id
  abbrev pub absent : String → List A → Bool
  absent id xs = all (λ (x : A). not (key x == id)) xs

  -- no two rows have the same id
  abbrev pub IsKeyed : List A → Type 0
  IsKeyed [] = Unit
  IsKeyed (x ∷ xs) = (absent (key x) xs ≡ true) × IsKeyed xs

  pub find_row-set_row :
      (xs : List A) (x : A) (id : String)
      → find_row key (set_row key xs x) id ≡ (if key x == id then some x else find_row key xs id)
  unfolding find_row set_row
  find_row-set_row [] x id = refl
  find_row-set_row (y ∷ ys) x id = ground (
    arith,
    eq_iff (key y) (key x),
    eq_iff (key x) id,
    eq_iff (key y) id,
    find_row-set_row ys x id,
  )

  pub find_row-absent :
      (xs : List A) (id : String) → find_row key xs id ≡ none → absent id xs ≡ true
  unfolding find_row
  find_row-absent [] id h = refl
  find_row-absent (x ∷ xs) id h = ground (arith, find_row-absent xs id)

  pub set_row-new :
      (xs : List A) (x : A) → absent (key x) xs ≡ true → set_row key xs x ≡ xs ++ x ∷ []
  unfolding set_row
  set_row-new [] x new = refl
  set_row-new (y ∷ ys) x new = ground (arith, set_row-new ys x)

  absent-append :
      (xs : List A) (x : A) (id : String)
      → absent id xs ≡ true
      → (key x == id) ≡ false
      → absent id (xs ++ x ∷ []) ≡ true
  absent-append [] x id new other = ground arith
  absent-append (y ∷ ys) x id new other = ground (arith, absent-append ys x id)

  absent-set_row :
      (xs : List A) (x : A) (id : String)
      → absent id xs ≡ true
      → (key x == id) ≡ false
      → absent id (set_row key xs x) ≡ true
  unfolding set_row
  absent-set_row [] x id new other = ground arith
  absent-set_row (y ∷ ys) x id new other = ground (arith, absent-set_row ys x id)

  pub set_row-IsKeyed : (xs : List A) (x : A) → IsKeyed xs → IsKeyed (set_row key xs x)
  unfolding set_row
  set_row-IsKeyed [] x k = (refl, tt)
  set_row-IsKeyed (y ∷ ys) x (new, k) = elim (Bool-cases (key y == key x)) [
    | inl same ↦ rw same (rw ((eq_iff (key y) (key x)).0 same) at new, k)
    | inr other ↦ rw other (
      absent-set_row ys x (key y) new
          (ground (arith, eq_iff (key x) (key y), eq_iff (key y) (key x))),
      set_row-IsKeyed ys x k,
    )
  ]

  absent-delete_row :
      (xs : List A) (j id : String) → absent j xs ≡ true → absent j (delete_row key xs id) ≡ true
  unfolding delete_row
  absent-delete_row [] j id h = refl
  absent-delete_row (x ∷ xs) j id h = ground (arith, absent-delete_row xs j id)

  pub delete_row-IsKeyed : (xs : List A) (id : String) → IsKeyed xs → IsKeyed (delete_row key xs id)
  unfolding delete_row
  delete_row-IsKeyed [] id k = tt
  delete_row-IsKeyed (x ∷ xs) id (new, k) = elim (Bool-cases (key x == id)) [
    | inl e ↦ rw e (delete_row-IsKeyed xs id k)
    | inr e ↦ rw e (absent-delete_row xs (key x) id new, delete_row-IsKeyed xs id k)
  ]

  pub rows_of-IsKeyed : (done xs : List A) → IsKeyed done → IsKeyed (rows_of key done xs)
  unfolding rows_of
  rows_of-IsKeyed done [] k = k
  rows_of-IsKeyed done (x ∷ xs) k =
      rows_of-IsKeyed (set_row key done x) xs (set_row-IsKeyed done x k)

  -- the keys of the rows are new to `done`
  abbrev NewTo : List A → List A → Type 0
  NewTo done xs = All (λ (x : A). absent (key x) done ≡ true) xs

  NewTo-append :
      (done xs : List A) (y : A)
      → NewTo done xs
      → absent (key y) xs ≡ true
      → NewTo (done ++ y ∷ []) xs
  NewTo-append done [] y news new = tt
  NewTo-append done (x ∷ xs) y (h, news) new = (
    absent-append done y (key x) h (ground (arith, eq_iff (key x) (key y), eq_iff (key y) (key x))),
    NewTo-append done xs y news (ground arith),
  )

  rows_of-append :
      (done xs : List A) → IsKeyed xs → NewTo done xs → rows_of key done xs ≡ done ++ xs
  unfolding rows_of
  rows_of-append done [] k news = sym (append-nil done)
  rows_of-append done (x ∷ xs) (new, k) (h, news) =
      ap (λ ys. rows_of key ys xs) (set_row-new done x h)
      ∙ rows_of-append (done ++ x ∷ []) xs k (NewTo-append done xs x news new)
      ∙ append_assoc done (x ∷ []) xs

  NewTo-nil : (xs : List A) → NewTo [] xs
  NewTo-nil [] = tt
  NewTo-nil (x ∷ xs) = (refl, NewTo-nil xs)

  -- rows that no two of have the same id are read back as they were written
  pub load_rows-stored :
      (path : String) (xs : List A) → IsKeyed xs → load_rows key path (stored xs) ≡ return xs
  unfolding load_rows
  load_rows-stored path xs k = ap return (rows_of-append [] xs k (NewTo-nil xs))

  -- loading the file gives the map in memory
  abbrev pub InSync : Table A → Type 0
  InSync t = load_rows key t.file_path t.file ≡ return t.rows

  -- what `JSON` makes of the rows, where it gives each of them back
  map-reload :
      (reload : A → A) (xs : List A) → All (λ (x : A). reload x ≡ x) xs → map reload xs ≡ xs
  map-reload reload [] h = refl
  map-reload reload (x ∷ xs) (e, h) = ap₂ (λ y ys. y ∷ ys) e (map-reload reload xs h)

  module _ {ℓ} {R : Type ℓ} (reload : A → A) where
    file-persist_rows :
        (result a : R) (t : Table A)
        → (persist_rows reload result t).0 ≡ return a
        → (persist_rows reload result t).1.file ≡ stored (map reload t.rows)
    unfolding persist_rows replace_file
    file-persist_rows result a t h = ground arith

    pub persist_rows-throw :
        (result : R) (e : StoreError) (t : Table A)
        → (persist_rows reload result t).0 ≡ throw e
        → (persist_rows reload result t).1.file ≡ t.file
    unfolding persist_rows replace_file
    persist_rows-throw result e t h = ground arith

    pub persist_rows-return :
        (result a : R) (t : Table A) → (persist_rows reload result t).0 ≡ return a → a ≡ result
    unfolding persist_rows replace_file
    persist_rows-return result a t h = ground arith

    pub rows-persist_rows :
        (result : R) (t : Table A) → (persist_rows reload result t).1.rows ≡ t.rows
    unfolding persist_rows replace_file
    rows-persist_rows result t = ground arith

    -- where `persist` returns and JSON gives the rows back, its file gives the map back
    pub persist_rows-InSync :
        (result a : R) (t : Table A)
        → IsKeyed t.rows
        → All (λ (x : A). reload x ≡ x) t.rows
        → (persist_rows reload result t).0 ≡ return a
        → InSync (persist_rows reload result t).1
    persist_rows-InSync result a t k plain h =
        rw
          (
            file-persist_rows result a t h,
            rows-persist_rows result t,
            map-reload reload t.rows plain,
          )
          (load_rows-stored (persist_rows reload result t).1.file_path t.rows k)
