-- ===== src/IndexStore/Examples.antt =====
-- The index on three records.
use db_cluster.Prelude.{
  refl, ℕ, zero, suc, nat_beq, if◌then◌else◌, arith, String, false, none, some, List, [], ◌∷◌, ◌≡◌,
}
use db_cluster.Json.{str, field, end}
use db_cluster.Json.Reload.{has_plain_fields}
use db_cluster.Stores.{IndexInput, IndexRecord}
use db_cluster.Keyed.{Table, missing}
use db_cluster.IndexStore.{Query, Texts, search, full_record, replace_all}
use db_cluster.IndexStore.Search.{walk, walk-all_of}
use db_cluster.IndexStore.Durable.{replaced, perform, IsDurable, perform-IsDurable}

abbrev texts : Texts
texts = record { lower = λ s. s; json = λ f. ""; strict_equal = λ o v. false }

abbrev words : String → IndexInput
words s = record {
  source_id = "e1";
  source_store = "canonical";
  text = s;
  metadata = field "kind" (str "person") end;
}

abbrev number_id : ℕ → String
number_id zero = "i0"
number_id (suc zero) = "i1"
number_id (suc (suc n)) = "i2"

-- the second write, which renames the temporary file, fails
abbrev failing : Table IndexRecord
failing = record {
  rows = [];
  file_path = "index-records.json";
  file = missing;
  writes = 0;
  write_error = λ n. if nat_beq n 1 then some "ENOSPC" else none;
}

abbrev empty_index : Table IndexRecord
empty_index = record failing { write_error = λ n. none }

abbrev inputs : List IndexInput
inputs = words "ada" ∷ words "grace" ∷ words "ada b" ∷ []

abbrev index_1 : Table IndexRecord
index_1 = (replace_all number_id "t1" inputs empty_index).1

abbrev ada : Query
ada = record {
  source_store = some "canonical";
  text = some "ada";
  metadata = none;
  limit = none;
  offset = none;
}

walk-all_of_example :
    walk texts index_1 ada 1 0 2
    ≡ full_record "i0" "t1" (words "ada") ∷ full_record "i2" "t1" (words "ada b") ∷ []
unfolding replace_all search
walk-all_of_example = walk-all_of texts index_1 ada 0 2 (omega arith)

perform-IsDurable_example :
    IsDurable empty_index (perform (replaced number_id "t1" inputs) empty_index)
unfolding replace_all has_plain_fields
perform-IsDurable_example = perform-IsDurable (replaced number_id "t1" inputs) empty_index tt refl

-- the rename fails: the map is replaced, the file is not
replace_failed : (replace_all number_id "t1" inputs failing).1.file ≡ missing
unfolding replace_all
replace_failed = refl
