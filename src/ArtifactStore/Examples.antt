-- ===== src/ArtifactStore/Examples.antt =====
-- The artifact store on two files.
use db_cluster.Prelude.{ℕ, String, true, none, some, List, [], ◌∷◌, ◌≡◌, refl}
use db_cluster.Stores.{Artifact}
use db_cluster.Keyed.{missing, throw, return, content_read_integrity}
use db_cluster.ArtifactStore.{
  Blob, Store, is_valid_content_hash, find_blob, open_store, get_artifact, get_content, versions,
  write_content, write_where, ArtifactIngestInput, ingest, import_snapshot,
}
use db_cluster.ArtifactStore.Kept.{
  ingested, imported, wrote, tampered, here, after, none_yet, wrote_next, Reach, get_content-Reach,
}
use db_cluster.ArtifactStore.Content.{get_content-ingest}
use db_cluster.ArtifactStore.Paths.{AreNamed, blobs-Writes}
use db_cluster.ArtifactStore.Numbering.{version_numbers, versions-Ingests}
use db_cluster.ArtifactStore.Numbering

abbrev hash_a : String
hash_a = "aaaaaaaaaaaaaaaaaaaaaaaaaaaaaaaaaaaaaaaaaaaaaaaaaaaaaaaaaaaaaaaa"

abbrev hash_b : String
hash_b = "0000000000000000000000000000000000000000000000000000000000000000"

abbrev sha256 : List ℕ → String
sha256 [] = hash_a
sha256 (b ∷ bs) = hash_b

abbrev json : Artifact → String
json a = a.content_hash

abbrev empty_store : Store
empty_store = record {
  table = record {
    rows = [];
    file_path = "artifacts.json";
    file = missing;
    writes = 0;
    write_error = λ n. none;
  };
  content_path = λ name. name;
  blobs = [];
}

abbrev report : ArtifactIngestInput
report = record { filename = "report"; content = 1 ∷ 2 ∷ []; mime_type = "text/plain" }

abbrev first : Artifact
first = record {
  id = "a1";
  filename = "report";
  content_hash = hash_b;
  mime_type = "text/plain";
  size_bytes = 2;
  version = 1;
  storage_path = hash_b;
  ingested_at = "t1";
}

abbrev store_1 : Store
store_1 = (ingest sha256 "a1" "t1" report empty_store).1

abbrev altered : Blob
altered = record { name = hash_b; bytes = [] }

abbrev restored : Blob
restored = record { name = hash_b; bytes = 1 ∷ 2 ∷ [] }

abbrev store_2 : Store
store_2 = record store_1 { blobs = restored ∷ []; table = record store_1.table { file = missing } }

-- bytes that were changed behind the store are not given
content_refused :
    get_content sha256 (record store_1 { blobs = altered ∷ [] }) "a1"
    ≡ throw (content_read_integrity "a1" hash_b hash_a)
unfolding ingest get_content is_valid_content_hash find_blob write_content write_where
content_refused = refl

history : Reach sha256 json store_1 (ingest sha256 "a2" "t2" report store_2).1
unfolding get_artifact ingest
history =
    after (after here (tampered (restored ∷ []) missing store_1))
      (wrote (ingested "a2" "t2" report store_2 refl))

get_content-Reach_example : (sha256 (1 ∷ 2 ∷ []) ≡ hash_b) × (is_valid_content_hash hash_b ≡ true)
unfolding ingest get_content
get_content-Reach_example = get_content-Reach history "a1" first (1 ∷ 2 ∷ []) refl refl

get_content-ingest_example :
    (open_store store_1 ≡ return store_1)
    × (get_content sha256 store_1 "a1" ≡ return (some (1 ∷ 2 ∷ [])))
unfolding ingest is_valid_content_hash
get_content-ingest_example =
    get_content-ingest sha256 "a1" "t1" report empty_store first tt refl (λ b h. absurd (cc)) refl

is_valid-sha256 : (content : List ℕ) → is_valid_content_hash (sha256 content) ≡ true
unfolding is_valid_content_hash
is_valid-sha256 [] = refl
is_valid-sha256 (b ∷ bs) = refl

blobs-Writes_example : AreNamed (import_snapshot json (record first { id = "a3" }) [] store_1).1
unfolding ingest get_artifact
blobs-Writes_example =
    blobs-Writes {sha256 = sha256} {json = json} is_valid-sha256
      (wrote_next (wrote_next none_yet (ingested "a1" "t1" report empty_store refl))
        (imported (record first { id = "a3" }) [] store_1))
      tt

twice : Numbering.Ingests sha256 empty_store (ingest sha256 "a2" "t2" report store_1).1
unfolding ingest get_artifact
twice =
    Numbering.ingested
      (Numbering.ingested {s = empty_store} {t = empty_store} Numbering.none_yet "a1" "t1" report
        refl)
      "a2" "t2" report refl

versions-Ingests_example :
    version_numbers (versions (ingest sha256 "a2" "t2" report store_1).1 "report") ≡ 1 ∷ 2 ∷ []
unfolding ingest versions
versions-Ingests_example = versions-Ingests twice refl "report"
