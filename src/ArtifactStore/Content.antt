-- ===== src/ArtifactStore/Content.antt =====
-- The bytes that are ingested are the bytes that are read, and every file stands under the name of a hash.
use db_cluster.Prelude.{
  All, [], ℕ, String, true, Option, none, some, List, ◌∷◌, ◌≡◌, ◌∙◌, refl, sym, ap, subst, arith,
  eq_iff,
}
use db_cluster.Stores.{Artifact}
use db_cluster.Keyed.{Reply, throw, return, set_row, replace_file}
use db_cluster.Keyed.Laws.{
  IsKeyed, find_row-set_row, rows-persist_rows, persist_rows-return, set_row-IsKeyed,
  persist_rows-InSync,
}
use db_cluster.ArtifactStore.{
  Blob, Store, artifact_id, is_valid_content_hash, find_blob, open_store, get_artifact,
  checked_content, content_of, open_with, get_content, write_content, write_where, add_blob,
  store_artifact, ArtifactIngestInput, ingested_artifact, ingest,
}
use db_cluster.ArtifactStore.Kept.{rows-write_content}

find_blob-head :
    (name : String) (bytes : List ℕ) (blobs : List Blob)
    → find_blob (record { name = name; bytes = bytes } ∷ blobs) name ≡ some bytes
unfolding find_blob
find_blob-head name bytes blobs = ground (arith, eq_iff name name)

find_blob-write_where :
    (name : String) (bytes : List ℕ) (s : Store) (o : Option (List ℕ))
    → find_blob s.blobs name ≡ o
    → ((b : List ℕ) → find_blob s.blobs name ≡ some b → b ≡ bytes)
    → (write_where name bytes s o).0 ≡ return tt
    → find_blob (write_where name bytes s o).1.blobs name ≡ some bytes
unfolding write_where replace_file add_blob
find_blob-write_where name bytes s (some b) e same h = e ∙ ap some (same b e)
find_blob-write_where name bytes s none e same h = ground (arith, find_blob-head name bytes s.blobs)

find_blob-write_content :
    (name : String) (bytes : List ℕ) (s : Store)
    → ((b : List ℕ) → find_blob s.blobs name ≡ some b → b ≡ bytes)
    → (write_content name bytes s).0 ≡ return tt
    → find_blob (write_content name bytes s).1.blobs name ≡ some bytes
unfolding write_content
find_blob-write_content name bytes s same h =
    find_blob-write_where name bytes s (find_blob s.blobs name) refl same h

unchanged : (xs : List Artifact) → All (λ (a : Artifact). a ≡ a) xs
unchanged [] = tt
unchanged (x ∷ xs) = (refl, unchanged xs)

-- what stands where an artifact was stored
record Holds (a b : Artifact) (r : Reply (Unit {0}) × Store) (t : Store) : Type 0 where
  written : r.0 ≡ return tt
  same : b ≡ a
  found : get_artifact t a.id ≡ some a
  opened : open_store t ≡ return t
  blobs : t.blobs ≡ r.1.blobs

store_artifact-Holds :
    (a b : Artifact) (r : Reply (Unit {0}) × Store)
    → IsKeyed artifact_id r.1.table.rows
    → (store_artifact a r).0 ≡ return b
    → Holds a b r (store_artifact a r).1
unfolding store_artifact get_artifact open_store open_with
store_artifact-Holds a b (throw e, s) k h = absurd (cc)
store_artifact-Holds a b (return u, s) k h =
    let t = record s.table { rows = set_row artifact_id s.table.rows a } in
    let s' = (store_artifact a (return u, s)).1 in
    record {
      written = refl;
      same = persist_rows-return artifact_id (λ (x : Artifact). x) a b t h;
      found =
          rw
            (
              rows-persist_rows artifact_id (λ (x : Artifact). x) a t,
              find_row-set_row artifact_id s.table.rows a a.id,
            )
            (ground (arith, eq_iff a.id a.id));
      opened = ap (open_with s') (
          persist_rows-InSync artifact_id (λ (x : Artifact). x) a b t
            (set_row-IsKeyed artifact_id s.table.rows a k) (unchanged t.rows) h);
      blobs = refl;
    }

-- An artifact whose ingest returns is read back whole: the same bytes, also by a store that is opened anew.
-- It takes a hash of the right shape, a map without two artifacts of one id, and that a file which stands
-- under the hash already holds these bytes.
pub get_content-ingest :
    (sha256 : List ℕ → String) (id now : String) (input : ArtifactIngestInput) (s : Store)
    (a : Artifact)
    → IsKeyed artifact_id s.table.rows
    → is_valid_content_hash (sha256 input.content) ≡ true
    → ((b : List ℕ) → find_blob s.blobs (sha256 input.content) ≡ some b → b ≡ input.content)
    → (ingest sha256 id now input s).0 ≡ return a
    → (open_store (ingest sha256 id now input s).1 ≡ return (ingest sha256 id now input s).1)
      × (get_content sha256 (ingest sha256 id now input s).1 a.id ≡ return (some input.content))
unfolding get_content content_of checked_content ingest ingested_artifact
get_content-ingest sha256 id now input s a k valid same h =
    let hash = sha256 input.content in
    let new = ingested_artifact sha256 id now input s in
    let written = write_content hash input.content s in
    let kept =
      store_artifact-Holds new a written
        (subst (IsKeyed artifact_id) (sym (rows-write_content hash input.content s)) k) h in
    (
      kept.opened,
      ap (λ (b : Artifact). get_content sha256 (ingest sha256 id now input s).1 b.id) kept.same
          ∙ rw
              (
                kept.found,
                valid,
                kept.blobs,
                find_blob-write_content hash input.content s same kept.written,
              )
              (ground (arith, eq_iff hash hash)),
    )
