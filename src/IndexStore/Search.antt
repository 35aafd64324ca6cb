-- ===== src/IndexStore/Search.antt =====
-- What a search of the index gives, and that its pages make up the whole.
use db_cluster.Prelude.{
  ℕ, zero, suc, ◌+◌, ◌≤◌, String, Bool, true, ◌&&◌, Option, none, some, List, [], ◌∷◌, ◌++◌, ◌==◌,
  ◌≡◌, ◌∙◌, refl, sym, ap, ap₂, arith, filter, length, take, drop, if◌then◌else◌,
}
use db_cluster.Json.{Fields, field, end, get_field}
use db_cluster.Stores.{IndexRecord}
use db_cluster.Keyed.{Table}
use db_cluster.IndexStore.{
  Query, Texts, by_source_store, has_text, by_text, by_entries, by_metadata, offset_of, page,
  search,
}

abbrev asks_store : Option String → IndexRecord → Bool
asks_store none r = true
asks_store (some s) r = if s == "" then true else r.source_store == s

abbrev asks_text : Texts → Option String → IndexRecord → Bool
asks_text x none r = true
asks_text x (some q) r = if q == "" then true else has_text x q r

abbrev asks_entries : Texts → Fields → IndexRecord → Bool
asks_entries x end r = true
asks_entries x (field key value rest) r =
    x.strict_equal (get_field r.metadata key) value && asks_entries x rest r

abbrev asks_metadata : Texts → Option Fields → IndexRecord → Bool
asks_metadata x none r = true
asks_metadata x (some fields) r = asks_entries x fields r

-- the record has the store, the words and every entry of the metadata that the query names
abbrev pub is_match : Texts → Query → IndexRecord → Bool
is_match x q r =
    asks_store q.source_store r && (asks_text x q.text r && asks_metadata x q.metadata r)

module _ {A : Type 0} where
  filter-all : (xs : List A) → filter (λ (x : A). true) xs ≡ xs
  filter-all [] = refl
  filter-all (x ∷ xs) = ap (λ ys. x ∷ ys) (filter-all xs)

  filter-filter :
      (p q : A → Bool) (xs : List A) → filter q (filter p xs) ≡ filter (λ (x : A). p x && q x) xs
  filter-filter p q [] = refl
  filter-filter p q (x ∷ xs) = ground (arith, filter-filter p q xs)

  take-append-drop : (n : ℕ) (xs : List A) → take n xs ++ drop n xs ≡ xs
  take-append-drop zero xs = refl
  take-append-drop (suc n) [] = refl
  take-append-drop (suc n) (x ∷ xs) = ap (λ ys. x ∷ ys) (take-append-drop n xs)

  drop-nil : (n : ℕ) → drop {A = A} n [] ≡ []
  drop-nil zero = refl
  drop-nil (suc n) = refl

  drop-drop : (n k : ℕ) (xs : List A) → drop n (drop k xs) ≡ drop (n + k) xs
  drop-drop n zero xs = ap (λ m. drop m xs) (omega arith)
  drop-drop n (suc k) [] = drop-nil n ∙ sym (drop-nil (n + suc k))
  drop-drop n (suc k) (x ∷ xs) =
      let next : suc (n + k) ≡ n + suc k = omega arith in
      drop-drop n k xs ∙ ap (λ m. drop m (x ∷ xs)) next

  drop-all : (n : ℕ) (xs : List A) → length xs ≤ n → drop n xs ≡ []
  drop-all zero [] h = refl
  drop-all (suc n) [] h = refl
  drop-all zero (x ∷ xs) h = absurd (ground arith)
  drop-all (suc n) (x ∷ xs) h = drop-all n xs (ground arith)

by_source_store-filter :
    (o : Option String) (rs : List IndexRecord) → by_source_store o rs ≡ filter (asks_store o) rs
unfolding by_source_store
by_source_store-filter none rs = sym (filter-all rs)
by_source_store-filter (some s) rs = ground (arith, filter-all rs)

by_text-filter :
    (x : Texts) (o : Option String) (rs : List IndexRecord)
    → by_text x o rs ≡ filter (asks_text x o) rs
unfolding by_text
by_text-filter x none rs = sym (filter-all rs)
by_text-filter x (some s) rs = ground (arith, filter-all rs)

by_entries-filter :
    (x : Texts) (fields : Fields) (rs : List IndexRecord)
    → by_entries x fields rs ≡ filter (asks_entries x fields) rs
unfolding by_entries
by_entries-filter x end rs = sym (filter-all rs)
by_entries-filter x (field key value rest) rs =
    let p = λ (r : IndexRecord). x.strict_equal (get_field r.metadata key) value in
    by_entries-filter x rest (filter p rs) ∙ filter-filter p (asks_entries x rest) rs

by_metadata-filter :
    (x : Texts) (o : Option Fields) (rs : List IndexRecord)
    → by_metadata x o rs ≡ filter (asks_metadata x o) rs
unfolding by_metadata
by_metadata-filter x none rs = sym (filter-all rs)
by_metadata-filter x (some fields) rs = by_entries-filter x fields rs

-- A search gives the records that match the query in each of its parts and no others, in the order of the
-- map, and of these the page that the limit and the offset name.
pub search-is_match :
    (x : Texts) (t : Table IndexRecord) (q : Query)
    → search x t q ≡ page q.limit (offset_of q.offset) (filter (is_match x q) t.rows)
unfolding search
search-is_match x t q = ap (page q.limit (offset_of q.offset)) (
    by_metadata-filter x q.metadata (by_text x q.text (by_source_store q.source_store t.rows))
    ∙ ap (filter (asks_metadata x q.metadata)) (
        by_text-filter x q.text (by_source_store q.source_store t.rows)
        ∙ ap (filter (asks_text x q.text)) (by_source_store-filter q.source_store t.rows))
    ∙ filter-filter (asks_text x q.text) (asks_metadata x q.metadata)
        (filter (asks_store q.source_store) t.rows)
    ∙ filter-filter (asks_store q.source_store)
        (λ (r : IndexRecord). asks_text x q.text r && asks_metadata x q.metadata r) t.rows)

-- the query for the page of `n` records from the `k`-th on
abbrev pub page_at : Query → ℕ → ℕ → Query
page_at q n k = record q { limit = some n; offset = some k }

-- the results of `pages` pages of `n` records, the first from the `k`-th on
abbrev pub walk : Texts → Table IndexRecord → Query → (n k pages : ℕ) → List IndexRecord
walk x t q n k zero = []
walk x t q n k (suc pages) = search x t (page_at q n k) ++ walk x t q n (n + k) pages

abbrev pub all_of : Query → Query
all_of q = record q { limit = none; offset = none }

walk-drop :
    (x : Texts) (t : Table IndexRecord) (q : Query) (n k pages : ℕ)
    → length (filter (is_match x q) t.rows) ≤ pages + k
    → walk x t q (suc n) k pages ≡ drop k (filter (is_match x q) t.rows)
unfolding page offset_of
walk-drop x t q n k zero h = sym (drop-all k (filter (is_match x q) t.rows) (omega arith))
walk-drop x t q n k (suc pages) h =
    let found = filter (is_match x q) t.rows in
    ap₂ (λ rs rest. rs ++ rest) (search-is_match x t (page_at q (suc n) k))
      (walk-drop x t q n (suc n + k) pages (omega arith) ∙ sym (drop-drop (suc n) k found))
    ∙ take-append-drop (suc n) (drop k found)

-- Who reads page after page, of any size above 0, gets every result of the search once and in its order,
-- with at most as many pages as there are results.
pub walk-all_of :
    (x : Texts) (t : Table IndexRecord) (q : Query) (n pages : ℕ)
    → length (search x t (all_of q)) ≤ pages
    → walk x t q (suc n) 0 pages ≡ search x t (all_of q)
unfolding page offset_of
walk-all_of x t q n pages h =
    let whole = search-is_match x t (all_of q) in
    let bound : length (filter (is_match x q) t.rows) ≤ pages = rw whole at h in
    walk-drop x t q n 0 pages (omega arith) ∙ sym whole
