-- ===== src/ArtifactStore/Paths.antt =====
-- Every file that the artifact store writes stands in its content directory, under the name of a hash.
use db_cluster.Prelude.{
  ℕ, String, true, refl, Option, none, some, List, ◌≡◌, inl, inr, subst, sym, All, Bool-cases,
  Option-cases,
}
use db_cluster.Stores.{Artifact}
use db_cluster.Keyed.{Table, Reply, throw, return, replace_file}
use db_cluster.ArtifactStore.{
  Blob, Store, is_valid_content_hash, find_blob, get_artifact, write_content, write_where, add_blob,
  store_artifact, ingested_artifact, ingest, import_by, import_snapshot,
}
use db_cluster.ArtifactStore.Kept.{Write, ingested, imported, Writes, none_yet, wrote_next}

-- `^[a-f0-9]{64}$`: a name with no separator and no dot
abbrev pub IsNamed : Blob → Type 0
IsNamed b = is_valid_content_hash b.name ≡ true

abbrev pub AreNamed : Store → Type 0
AreNamed s = All IsNamed s.blobs

add_blob-IsNamed :
    (r : Reply (Unit {0})) (b : Blob) (bs : List Blob)
    → IsNamed b
    → All IsNamed bs
    → All IsNamed (add_blob r b bs)
unfolding add_blob
add_blob-IsNamed (throw e) b bs h named = named
add_blob-IsNamed (return done) b bs h named = (h, named)

write_where-AreNamed :
    (name : String) (bytes : List ℕ) (s : Store) (o : Option (List ℕ))
    → is_valid_content_hash name ≡ true
    → AreNamed s
    → AreNamed (write_where name bytes s o).1
unfolding write_where
write_where-AreNamed name bytes s (some there) valid named = named
write_where-AreNamed name bytes s none valid named =
    let written = replace_file {R = Unit {0}} tt (λ (t : Table Artifact). t) s.table in
    add_blob-IsNamed written.0 (record { name = name; bytes = bytes }) s.blobs valid named

blobs-store_artifact :
    (a : Artifact) (r : Reply (Unit {0}) × Store) → (store_artifact a r).1.blobs ≡ r.1.blobs
unfolding store_artifact
blobs-store_artifact a (throw e, s) = refl
blobs-store_artifact a (return u, s) = refl

put-AreNamed :
    (a : Artifact) (name : String) (bytes : List ℕ) (s : Store)
    → is_valid_content_hash name ≡ true
    → AreNamed s
    → AreNamed (store_artifact a (write_content name bytes s)).1
unfolding write_content
put-AreNamed a name bytes s valid named =
    subst (All IsNamed) (sym (blobs-store_artifact a (write_content name bytes s)))
      (write_where-AreNamed name bytes s (find_blob s.blobs name) valid named)

module _ {sha256 : List ℕ → String} {json : Artifact → String}
    (hexadecimal : (content : List ℕ) → is_valid_content_hash (sha256 content) ≡ true) where
  Write-AreNamed : {s t : Store} → Write sha256 json s t → AreNamed s → AreNamed t
  unfolding ingest import_snapshot import_by
  Write-AreNamed (ingested id now input s new) named =
      put-AreNamed (ingested_artifact sha256 id now input s) (sha256 input.content) input.content s
        (hexadecimal input.content) named
  Write-AreNamed (imported a content s) named =
      elim (Bool-cases (is_valid_content_hash a.content_hash)) [
        | inr invalid ↦ rw invalid named
        | inl valid ↦ rw valid (elim (Option-cases (get_artifact s a.id)) [
          | inr (there, e) ↦ rw e named
          | inl new ↦ rw new (
              put-AreNamed (record a { storage_path = s.content_path a.content_hash })
                a.content_hash content s valid named)
        ])
      ]

  -- Where the hash function gives hashes of the right shape, every file that ingests and imports write
  -- bears such a hash as its name, whatever a snapshot says: no name leads out of the directory.
  pub blobs-Writes : {s t : Store} → Writes sha256 json s t → AreNamed s → AreNamed t
  blobs-Writes none_yet named = named
  blobs-Writes (wrote_next ws w) named = Write-AreNamed w (blobs-Writes ws named)
