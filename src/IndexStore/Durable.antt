-- ===== src/IndexStore/Durable.antt =====
-- The file of the index behind each of its operations.
use db_cluster.Prelude.{
  ℕ, String, Bool, true, List, [], ◌∷◌, ◌≡◌, ◌∙◌, refl, sym, ap, subst, all, All, arith,
}
use db_cluster.Json.Reload.{has_plain_fields, reload_fields-plain}
use db_cluster.Stores.{IndexInput, IndexRecord}
use db_cluster.Keyed.{
  Table, StoreError, Reply, throw, return, set_row, delete_row, rows_of, persist_rows,
}
use db_cluster.Keyed.Laws.{
  IsKeyed, InSync, set_row-IsKeyed, delete_row-IsKeyed, rows_of-IsKeyed, rows-persist_rows,
  persist_rows-throw, persist_rows-InSync,
}
use db_cluster.IndexStore.{
  record_id, reload_record, full_record, index, remove, clear, full_records, replace_all,
}

-- An operation that changes the index, with what `randomUUID` and the clock give it.
pub data Op : Type 0 where
  indexed : (id now : String) → IndexInput → Op
  removed : String → Op
  cleared : Op
  replaced : (ids : ℕ → String) (now : String) → List IndexInput → Op

-- without the value that it returns
abbrev pub voided {ℓ} :
    {R : Type ℓ} → Reply R × Table IndexRecord → Reply (Unit {0}) × Table IndexRecord
voided (throw e, t) = (throw e, t)
voided (return x, t) = (return tt, t)

-- the operation on the index
abbrev pub perform : Op → Table IndexRecord → Reply (Unit {0}) × Table IndexRecord
perform (indexed id now input) t = voided (index id now input t)
perform (removed id) t = voided (remove id t)
perform cleared t = voided (clear t)
perform (replaced ids now inputs) t = voided (replace_all ids now inputs t)

-- where it returned, the file gives the map back; where it threw, the file is what it was
abbrev pub IsSettled : Table IndexRecord → Reply (Unit {0}) × Table IndexRecord → Type 0
IsSettled before (throw e, t) = t.file ≡ before.file
IsSettled before (return done, t) = InSync record_id t

voided-IsSettled {ℓ} :
    {R : Type ℓ} (before : Table IndexRecord) (r : Reply R × Table IndexRecord)
    → ((e : StoreError) → r.0 ≡ throw e → r.1.file ≡ before.file)
    → ((a : R) → r.0 ≡ return a → InSync record_id r.1)
    → IsSettled before (voided r)
voided-IsSettled before (throw e, t) failed done = failed e refl
voided-IsSettled before (return a, t) failed done = done a refl

rows-voided {ℓ} : {R : Type ℓ} (r : Reply R × Table IndexRecord) → (voided r).1.rows ≡ r.1.rows
rows-voided (throw e, t) = refl
rows-voided (return a, t) = refl

-- the map keeps its ids apart, and the file is settled
abbrev pub IsDurable : Table IndexRecord → Reply (Unit {0}) × Table IndexRecord → Type 0
IsDurable before r = IsKeyed record_id r.1.rows × IsSettled before r

-- the metadata of no record hold a Buffer or a number that is not finite
abbrev pub are_plain : List IndexRecord → Bool
are_plain rs = all (λ (r : IndexRecord). has_plain_fields r.metadata) rs

reload_record-plain :
    (rs : List IndexRecord)
    → are_plain rs ≡ true
    → All (λ (r : IndexRecord). reload_record r ≡ r) rs
unfolding reload_record
reload_record-plain [] h = tt
reload_record-plain (r ∷ rs) h = (
  ap (λ f. record r { metadata = f }) (reload_fields-plain r.metadata (ground arith)),
  reload_record-plain rs (ground arith),
)

persist-IsDurable {ℓ} :
    {R : Type ℓ} (result : R) (t : Table IndexRecord) (rows : List IndexRecord)
    → IsKeyed record_id rows
    → are_plain (voided (persist_rows reload_record result (record t { rows = rows }))).1.rows
      ≡ true
    → IsDurable t (voided (persist_rows reload_record result (record t { rows = rows })))
persist-IsDurable result t rows k plain =
    let next = record t { rows = rows } in
    let kept =
      rows-voided (persist_rows reload_record result next)
      ∙ rows-persist_rows record_id reload_record result next in
    (
      subst (IsKeyed record_id) (sym kept) k,
      voided-IsSettled t (persist_rows reload_record result next)
          (λ e h. persist_rows-throw record_id reload_record result e next h)
          (λ a h.
            persist_rows-InSync record_id reload_record result a next k
              (reload_record-plain rows (ap are_plain (sym kept) ∙ plain)) h),
    )

-- Each operation that changes the index, `replaceAll` too, either returns and leaves a file that loads to
-- the map in memory, or throws and leaves the file as it was: the file never holds a part of an operation.
-- It takes a map without two records of one id and leaves such a map; and it takes metadata, in the map
-- that it leaves, without a Buffer and without a number that is not finite, which JSON does not give back.
pub perform-IsDurable :
    (op : Op) (t : Table IndexRecord)
    → IsKeyed record_id t.rows
    → are_plain (perform op t).1.rows ≡ true
    → IsDurable t (perform op t)
unfolding index remove clear replace_all
perform-IsDurable (indexed id now input) t k plain =
    let full = full_record id now input in
    persist-IsDurable full t (set_row record_id t.rows full)
      (set_row-IsKeyed record_id t.rows full k) plain
perform-IsDurable (removed id) t k plain =
    persist-IsDurable (tt {0}) t (delete_row record_id t.rows id)
      (delete_row-IsKeyed record_id t.rows id k) plain
perform-IsDurable cleared t k plain = persist-IsDurable (tt {0}) t [] tt plain
perform-IsDurable (replaced ids now inputs) t k plain =
    let full = full_records ids now 0 inputs in
    persist-IsDurable (tt {0}) t (rows_of record_id [] full) (rows_of-IsKeyed record_id [] full tt)
      plain
