-- ===== src/ArtifactStore/Kept.antt =====
-- What the operations of the artifact store keep: an artifact stays as it was ingested, and no bytes but
-- those of its hash are given for it, whatever becomes of the files.
use db_cluster.Prelude.{
  ℕ, String, true, Option, none, some, List, ◌==◌, ◌≡◌, ◌∙◌, inl, inr, refl, ap, arith, eq_iff,
  Bool-cases, Option-cases,
}
use db_cluster.Stores.{Artifact}
use db_cluster.Keyed.{Reply, throw, return, find_row, set_row, replace_file, File}
use db_cluster.Keyed.Laws.{find_row-set_row, rows-persist_rows}
use db_cluster.ArtifactStore.{
  Blob, Store, artifact_id, is_valid_content_hash, find_blob, get_artifact, checked_content,
  content_of, get_content, write_content, write_where, store_artifact, ArtifactIngestInput,
  ingested_artifact, ingest, import_by, import_snapshot,
}

module _ (sha256 : List ℕ → String) (json : Artifact → String) where
  -- An operation of the store; the ids that `randomUUID` gives are new.
  pub data Write : Store → Store → Type 0 where
    ingested :
        (id now : String) (input : ArtifactIngestInput) (s : Store)
        → get_artifact s id ≡ none
        → Write s (ingest sha256 id now input s).1
    imported :
        (a : Artifact) (content : List ℕ) (s : Store) → Write s (import_snapshot json a content s).1

  pub data Writes : Store → Store → Type 0 where
    none_yet : {s : Store} → Writes s s
    wrote_next : {s t u : Store} → Writes s t → Write t u → Writes s u

  -- An operation of the store, or anything that befalls its files.
  pub data Step : Store → Store → Type 0 where
    wrote : {s t : Store} → Write s t → Step s t
    tampered :
        (blobs : List Blob) (file : File Artifact) (s : Store)
        → Step s (record s { blobs = blobs; table = record s.table { file = file } })

  pub data Reach : Store → Store → Type 0 where
    here : {s : Store} → Reach s s
    after : {s t u : Store} → Reach s t → Step t u → Reach s u

rows-write_where :
    (name : String) (bytes : List ℕ) (s : Store) (o : Option (List ℕ))
    → (write_where name bytes s o).1.table.rows ≡ s.table.rows
unfolding write_where replace_file
rows-write_where name bytes s none = ground arith
rows-write_where name bytes s (some there) = refl

pub rows-write_content :
    (name : String) (bytes : List ℕ) (s : Store)
    → (write_content name bytes s).1.table.rows ≡ s.table.rows
unfolding write_content
rows-write_content name bytes s = rows-write_where name bytes s (find_blob s.blobs name)

-- what `t` gives for an id is what `s` gives for it
abbrev Keeps : Store → Store → Type 0
Keeps s t = (id : String) (a : Artifact) → get_artifact s id ≡ some a → get_artifact t id ≡ some a

store_artifact-Keeps :
    (a : Artifact) (r : Reply (Unit {0}) × Store)
    → get_artifact r.1 a.id ≡ none
    → Keeps r.1 (store_artifact a r).1
unfolding store_artifact get_artifact
store_artifact-Keeps a (throw e, s) new id b h = h
store_artifact-Keeps a (return done, s) new id b h =
    rw
      (
        rows-persist_rows artifact_id (λ (x : Artifact). x) a
            (record s.table { rows = set_row artifact_id s.table.rows a }),
        find_row-set_row artifact_id s.table.rows a id,
      )
      (elim (Bool-cases (a.id == id)) [
        | inl same ↦ absurd (cc (rw ((eq_iff a.id id).0 same) at new))
        | inr other ↦ rw other h
      ])

get_artifact-write_content :
    (name : String) (bytes : List ℕ) (s : Store) (id : String)
    → get_artifact (write_content name bytes s).1 id ≡ get_artifact s id
unfolding get_artifact
get_artifact-write_content name bytes s id =
    ap (λ rows. find_row artifact_id rows id) (rows-write_content name bytes s)

put-Keeps :
    (a : Artifact) (name : String) (bytes : List ℕ) (s : Store)
    → get_artifact s a.id ≡ none
    → Keeps s (store_artifact a (write_content name bytes s)).1
put-Keeps a name bytes s new id b h =
    store_artifact-Keeps a (write_content name bytes s)
      (get_artifact-write_content name bytes s a.id ∙ new) id b
      (get_artifact-write_content name bytes s id ∙ h)

checked_content-hash :
    (sha256 : List ℕ → String) (a : Artifact) (o : Option (List ℕ)) (bytes : List ℕ)
    → checked_content sha256 a o ≡ return (some bytes)
    → sha256 bytes ≡ a.content_hash
unfolding checked_content
checked_content-hash sha256 a none bytes h = absurd (cc)
checked_content-hash sha256 a (some there) bytes h =
    ground (arith, eq_iff (sha256 there) a.content_hash)

module _ {sha256 : List ℕ → String} {json : Artifact → String} where
  Write-Keeps : {s t : Store} → Write sha256 json s t → Keeps s t
  unfolding ingest ingested_artifact import_snapshot import_by
  Write-Keeps (ingested id now input s new) j b h =
      put-Keeps (ingested_artifact sha256 id now input s) (sha256 input.content) input.content s new
        j b h
  Write-Keeps (imported a content s) j b h =
      elim (Bool-cases (is_valid_content_hash a.content_hash)) [
        | inr invalid ↦ rw invalid h
        | inl valid ↦ rw valid (elim (Option-cases (get_artifact s a.id)) [
          | inr (there, e) ↦ rw e h
          | inl new ↦ rw new (
              put-Keeps (record a { storage_path = s.content_path a.content_hash }) a.content_hash
                content s new j b h)
        ])
      ]

  Step-Keeps : {s t : Store} → Step sha256 json s t → Keeps s t
  unfolding get_artifact
  Step-Keeps (wrote w) j b h = Write-Keeps w j b h
  Step-Keeps (tampered blobs file s) j b h = h

  -- An artifact that the store once had stays what it was, whatever operations follow and whatever
  -- becomes of the files while the store is open.
  pub get_artifact-Reach :
      {s t : Store} (r : Reach sha256 json s t) (id : String) (a : Artifact)
      → get_artifact s id ≡ some a
      → get_artifact t id ≡ some a
  get_artifact-Reach here id a h = h
  get_artifact-Reach (after r step) id a h = Step-Keeps step id a (get_artifact-Reach r id a h)

  -- The bytes that the store gives for an artifact it once had are bytes of that artifact's hash, whatever
  -- operations and whatever changes of the files lie between: other bytes are never given.
  pub get_content-Reach :
      {s t : Store} (r : Reach sha256 json s t) (id : String) (a : Artifact) (bytes : List ℕ)
      → get_artifact s id ≡ some a
      → get_content sha256 t id ≡ return (some bytes)
      → (sha256 bytes ≡ a.content_hash) × (is_valid_content_hash a.content_hash ≡ true)
  unfolding get_content content_of
  get_content-Reach {s} {t} r id a bytes h given =
      let known = rw (get_artifact-Reach r id a h) at given in
      elim (Bool-cases (is_valid_content_hash a.content_hash)) [
        | inr invalid ↦ absurd (cc (rw invalid at known))
        | inl valid ↦ (
          checked_content-hash sha256 a (find_blob t.blobs a.content_hash) bytes
              (rw valid at known),
          valid,
        )
      ]
