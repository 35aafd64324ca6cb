-- ===== src/ArtifactStore/Numbering.antt =====
-- The versions of a filename in a store that was filled by ingests.
use db_cluster.Prelude.{
  ℕ, zero, suc, ◌+◌, String, none, List, [], ◌∷◌, ◌++◌, ◌==◌, ◌≡◌, ◌∙◌, ◌⊎◌, inl, inr, refl, sym,
  ap, ap₂, subst, arith, eq_iff, map, length, Bool-cases, if◌then◌else◌,
}
use db_cluster.Stores.{Artifact}
use db_cluster.Keyed.{Reply, throw, return, set_row}
use db_cluster.Keyed.Laws.{rows-persist_rows, find_row-absent, set_row-new}
use db_cluster.ArtifactStore.{
  Store, artifact_id, get_artifact, named, insert_artifact, sort_artifacts, versions, write_content,
  store_artifact, ArtifactIngestInput, ingested_artifact, ingest,
}
use db_cluster.ArtifactStore.Kept.{rows-write_content}

module _ (sha256 : List ℕ → String) where
  -- ingests with the new ids of `randomUUID`, also those that fail
  pub data Ingests : Store → Store → Type 0 where
    none_yet : {s : Store} → Ingests s s
    ingested :
        {s t : Store} (r : Ingests s t) (id now : String) (input : ArtifactIngestInput)
        → get_artifact t id ≡ none
        → Ingests s (ingest sha256 id now input t).1

-- `n` numbers from `k` on
abbrev pub numbers_from : ℕ → ℕ → List ℕ
numbers_from k zero = []
numbers_from k (suc n) = k ∷ numbers_from (k + 1) n

abbrev pub version_numbers : List Artifact → List ℕ
version_numbers xs = map (λ (a : Artifact). a.version) xs

abbrev IsNumbered : ℕ → List Artifact → Type 0
IsNumbered k xs = version_numbers xs ≡ numbers_from k (length xs)

named-append :
    (xs : List Artifact) (a : Artifact) (filename : String)
    → named (xs ++ a ∷ []) filename
      ≡ (if a.filename == filename then named xs filename ++ a ∷ [] else named xs filename)
unfolding named
named-append [] a filename = refl
named-append (x ∷ xs) a filename = ground (arith, named-append xs a filename)

cons-IsNumbered :
    (k : ℕ) (x : Artifact) (xs : List Artifact)
    → IsNumbered k (x ∷ xs)
    → (x.version ≡ k) × IsNumbered (k + 1) xs
cons-IsNumbered k x xs h = (ground arith, ground arith)

append-IsNumbered :
    (k : ℕ) (xs : List Artifact) (a : Artifact)
    → IsNumbered k xs
    → a.version ≡ length xs + k
    → IsNumbered k (xs ++ a ∷ [])
append-IsNumbered k [] a h v = ground arith
append-IsNumbered k (x ∷ xs) a h v =
    let (first, rest) = cons-IsNumbered k x xs h in
    ap₂ (λ n ns. n ∷ ns) first (append-IsNumbered (k + 1) xs a rest (ground arith))

sort_artifacts-IsNumbered : (k : ℕ) (xs : List Artifact) → IsNumbered k xs → sort_artifacts xs ≡ xs
unfolding sort_artifacts insert_artifact
sort_artifacts-IsNumbered k [] h = refl
sort_artifacts-IsNumbered k (x ∷ []) h = refl
sort_artifacts-IsNumbered k (x ∷ y ∷ ys) h =
    let (first, rest) = cons-IsNumbered k x (y ∷ ys) h in
    let second = (cons-IsNumbered (k + 1) y ys rest).0 in
    rw (sort_artifacts-IsNumbered (k + 1) (y ∷ ys) rest) (ground arith)

rows-store_artifact :
    (a : Artifact) (r : Reply (Unit {0}) × Store)
    → ((store_artifact a r).1.table.rows ≡ r.1.table.rows)
      ⊎ ((store_artifact a r).1.table.rows ≡ set_row artifact_id r.1.table.rows a)
unfolding store_artifact
rows-store_artifact a (throw e, s) = inl refl
rows-store_artifact a (return u, s) = inr (
    rows-persist_rows artifact_id (λ (x : Artifact). x) a
      (record s.table { rows = set_row artifact_id s.table.rows a }))

-- in the order of the map every filename has the versions from 1 on
abbrev AreNumbered : List Artifact → Type 0
AreNumbered xs = (filename : String) → IsNumbered 1 (named xs filename)

append-AreNumbered :
    (xs : List Artifact) (a : Artifact)
    → AreNumbered xs
    → a.version ≡ length (named xs a.filename) + 1
    → AreNumbered (xs ++ a ∷ [])
append-AreNumbered xs a h v filename = elim (Bool-cases (a.filename == filename)) [
  | inr other ↦ rw (named-append xs a filename, other) (h filename)
  | inl same ↦
      rw (named-append xs a filename, same)
        (append-IsNumbered 1 (named xs filename) a (h filename)
          (rw ((eq_iff a.filename filename).0 same) at v))
]

Ingests-AreNumbered :
    {sha256 : List ℕ → String} {s t : Store}
    → Ingests sha256 s t
    → AreNumbered s.table.rows
    → AreNumbered t.table.rows
unfolding ingest ingested_artifact get_artifact
Ingests-AreNumbered none_yet h = h
Ingests-AreNumbered {sha256} {s} (ingested {t = t} r id now input new) h =
    let a = ingested_artifact sha256 id now input t in
    let hash = sha256 input.content in
    let before = Ingests-AreNumbered r h in
    elim (rows-store_artifact a (write_content hash input.content t)) [
      | inl e ↦ subst AreNumbered (sym (e ∙ rows-write_content hash input.content t)) before
      | inr e ↦
          subst AreNumbered
            (sym (
              e
              ∙ ap (λ xs. set_row artifact_id xs a) (rows-write_content hash input.content t)
              ∙ set_row-new artifact_id t.table.rows a
                  (find_row-absent artifact_id t.table.rows id new)))
            (append-AreNumbered t.table.rows a before refl)
    ]

-- In a store that was empty and that ingests with new ids alone have filled, also ones that failed, the
-- versions of every filename are 1, 2, 3 and so on, in this order and without a gap or a double.
pub versions-Ingests :
    {sha256 : List ℕ → String} {s t : Store}
    → Ingests sha256 s t
    → s.table.rows ≡ []
    → (filename : String)
    → version_numbers (versions t filename) ≡ numbers_from 1 (length (versions t filename))
unfolding versions named
versions-Ingests {t = t} r empty filename =
    let numbered = Ingests-AreNumbered r (subst AreNumbered (sym empty) (λ f. refl)) filename in
    subst (IsNumbered 1) (sym (sort_artifacts-IsNumbered 1 (named t.table.rows filename) numbered))
      numbered
