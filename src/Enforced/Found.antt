-- ===== src/Enforced/Found.antt =====
-- What `findSources` lets through.
use Prim.Native.Nat.{Ordering}
use db_cluster.Prelude.{
  String, Bool, none, some, true, false, ◌&&◌, ◌||◌, List, [], ◌∷◌, ◌==◌, ◌≡◌, ◌⊎◌, inl, inr, refl,
  ap, eq_iff, arith, map, filter, includes, All, Bool-cases,
}
use mathlib.Core.List.{Memᴰ}
use db_cluster.Json.{template}
use db_cluster.Errors.{Result, ok, err}
use db_cluster.Canonical.{Entity}
use db_cluster.Stores.{Host, Artifact, IndexRecord}
use db_cluster.Policy.{
  allow, deny, PolicyDecision, discover_existence, read_owner_truth, read_derivative,
}
use db_cluster.Kernel.Action.{State, Action}
use db_cluster.Kernel.Reads
use db_cluster.Kernel.Reads.{FindSourcesInput, FindSourcesResult}
use db_cluster.Enforced.{Gatekeeper, delegate, decide, is_allowed, pure, ◌>>=◌, continue, lifted}
use db_cluster.Enforced.Gate.{Concludes, enforce-Gated}
use db_cluster.Enforced.Reads.{in_store, entity_resource, artifact_resource, permitted}
use db_cluster.Enforced.Searches.{
  ShownSources, derivative_resource, source_resource, visible, reads_source, passes, filter_sources,
  find_sources,
}

-- what passes a filter is an item that passes
filter-All :
    {A : Type 0} (p : A → Bool) (P : A → Type 0) (xs : List A)
    → ((x : A) → Memᴰ x xs → p x ≡ true → P x)
    → All P (filter p xs)
filter-All p P [] h = tt
filter-All p P (x ∷ xs) h =
    let rest = filter-All p P xs (λ y m. h y (Memᴰ.tail m)) in
    elim (Bool-cases (p x)) [
      | inl yes' ↦ rw yes' (h x (Memᴰ.head refl) yes', rest)
      | inr no' ↦ rw no' rest
    ]

both : (a b : Bool) → (a && b) ≡ true → (a ≡ true) × (b ≡ true)
both a b h = (ground arith, ground arith)

either : (a b : Bool) → (a || b) ≡ true → (a ≡ true) ⊎ (b ≡ true)
either true b h = inl refl
either false b h = inr h

-- an id among those of the items that pass is that of an item that passes
includes-filter :
    {A : Type 0} (id_of : A → String) (p : A → Bool) (xs : List A) (id : String)
    → includes (map id_of (filter p xs)) id ≡ true
    → (x : A) × Memᴰ x xs × (id_of x ≡ id) × (p x ≡ true)
includes-filter id_of p [] id h = absurd (cc)
includes-filter id_of p (x ∷ xs) id h = elim (Bool-cases (p x)) [
  | inr no' ↦
      let (y, m, same, passed) = includes-filter id_of p xs id (rw no' at h) in
      (y, Memᴰ.tail m, same, passed)
  | inl yes' ↦
      elim (either (id_of x == id) (includes (map id_of (filter p xs)) id) (rw yes' at h)) [
        | inl same ↦ (x, Memᴰ.head refl, (eq_iff (id_of x) id).0 same, yes')
        | inr later ↦
            let (y, m, same, passed) = includes-filter id_of p xs id later in
            (y, Memᴰ.tail m, same, passed)
      ]
]

-- what a kernel's operation gives, passed through a function
lifted-mapped :
    {W A B : Type 0} (P : B → State W → Type 0) (D : PolicyDecision → State W → Type 0) (f : A → B)
    (r : Result A × State W)
    → ((a : A) (t : State W) → r ≡ (ok a, t) → P (f a) t)
    → Concludes P D (λ e t. Unit) (continue (λ a. pure (f a)) (lifted r))
unfolding pure
lifted-mapped P D f (ok a, t) h = h a t refl
lifted-mapped P D f (err e, t) h = tt

mapped-Concludes :
    {W A B : Type 0} (P : B → State W → Type 0) (D : PolicyDecision → State W → Type 0)
    (m : Action W A) (f : A → B) (s : State W)
    → ((a : A) (t : State W) → m s ≡ (ok a, t) → P (f a) t)
    → Concludes P D (λ e t. Unit) ((delegate m >>= λ a. pure (f a)) s)
unfolding delegate ◌>>=◌ pure
mapped-Concludes P D m f s h = lifted-mapped P D f (m s) h

module _ (locale : String → String → Ordering) (g : Gatekeeper) where
  -- The principal may read an entity that the kernel resolved under the id, asked by the store, the URI
  -- and the kind of that entity; or the source of the record by its store and URI alone.
  abbrev pub EntityReadable : FindSourcesResult → IndexRecord → Type 0
  EntityReadable found r =
      ((e : Entity) × Memᴰ e found.resolved_entities
        × (e.id ≡ r.source_id)
        × (is_allowed locale g read_owner_truth (record {
          resource_uri = some (template ("cluster://" ∷ "canonical" ∷ "/" ∷ e.id ∷ []));
          owner_store = some "canonical";
          entity_kind = some e.kind;
          command_verb = none;
        })
            ≡ true))
      ⊎ (is_allowed locale g read_owner_truth (source_resource r) ≡ true)

  -- the same of an artifact, which has no kind
  abbrev pub ArtifactReadable : FindSourcesResult → IndexRecord → Type 0
  ArtifactReadable found r =
      ((a : Artifact) × Memᴰ a found.resolved_artifacts
        × (a.id ≡ r.source_id)
        × (is_allowed locale g read_owner_truth (record {
          resource_uri = some (template ("cluster://" ∷ "artifact" ∷ "/" ∷ a.id ∷ []));
          owner_store = some "artifact";
          entity_kind = none;
          command_verb = none;
        })
            ≡ true))
      ⊎ (is_allowed locale g read_owner_truth (source_resource r) ≡ true)

  -- The kernel found the record, the principal may see a derivative of its source, the source is visible,
  -- and may be read where it is an entity or an artifact.
  pub record IsReadable (found : FindSourcesResult) (r : IndexRecord) : Type 0 where
    pub was_found : Memᴰ r found.index_records
    pub derivative : is_allowed locale g read_derivative (derivative_resource r) ≡ true
    pub is_visible : visible g r.source_store r.source_id ≡ true
    pub of_entity : r.source_store ≡ "canonical" → EntityReadable found r
    pub of_artifact : r.source_store ≡ "artifact" → ArtifactReadable found r

  reads_entity :
      (found : FindSourcesResult) (r : IndexRecord)
      → r.source_store ≡ "canonical"
      → reads_source locale g found r ≡ true
      → EntityReadable found r
  unfolding reads_source permitted
  reads_entity found r store h =
      elim (either
        (includes
          (map (λ (e : Entity). e.id)
            (filter (λ e. is_allowed locale g read_owner_truth (entity_resource e))
              found.resolved_entities))
          r.source_id)
        (is_allowed locale g read_owner_truth (source_resource r))
        (rw ((eq_iff r.source_store "canonical").1 store) at h)) [
          | inl listed ↦ inl (
              includes-filter (λ (e : Entity). e.id)
                (λ e. is_allowed locale g read_owner_truth (entity_resource e))
                found.resolved_entities r.source_id listed)
          | inr allows ↦ inr allows
        ]

  reads_artifact :
      (found : FindSourcesResult) (r : IndexRecord)
      → r.source_store ≡ "artifact"
      → reads_source locale g found r ≡ true
      → ArtifactReadable found r
  unfolding reads_source permitted
  reads_artifact found r store h =
      let other : (r.source_store == "canonical") ≡ false = ap (λ x. x == "canonical") store in
      elim (either
        (includes
          (map (λ (a : Artifact). a.id)
            (filter (λ a. is_allowed locale g read_owner_truth (artifact_resource a))
              found.resolved_artifacts))
          r.source_id)
        (is_allowed locale g read_owner_truth (source_resource r))
        (rw (other, (eq_iff r.source_store "artifact").1 store) at h)) [
          | inl listed ↦ inl (
              includes-filter (λ (a : Artifact). a.id)
                (λ a. is_allowed locale g read_owner_truth (artifact_resource a))
                found.resolved_artifacts r.source_id listed)
          | inr allows ↦ inr allows
        ]

  passes-IsReadable :
      (found : FindSourcesResult) (r : IndexRecord)
      → Memᴰ r found.index_records
      → passes locale g found r ≡ true
      → IsReadable found r
  unfolding passes
  passes-IsReadable found r m h =
      let (seen, rest) = both (is_allowed locale g read_derivative (derivative_resource r)) _ h in
      let (reads, shows) = both (reads_source locale g found r) _ rest in
      record {
        was_found = m;
        derivative = seen;
        is_visible = shows;
        of_entity = λ store. reads_entity found r store reads;
        of_artifact = λ store. reads_artifact found r store reads;
      }

  filter_sources-IsReadable :
      (found : FindSourcesResult)
      → All (IsReadable found) (filter_sources locale g found).index_records
  unfolding filter_sources
  filter_sources-IsReadable found =
      filter-All (passes locale g found) (IsReadable found) found.index_records
        (passes-IsReadable found)

  -- Where `findSources` returns, the principal may discover sources, and the kernel's own `findSources` has
  -- returned; each index record that is given is one that the kernel found, of a source whose derivatives
  -- the principal may read and that the visibility rules show. Where that source is an entity or an
  -- artifact, the principal may read the owner truth of one that the kernel resolved under its id, by that
  -- one's own kind, or of the source by its store and URI. Where it is denied, nothing has been read.
  pub find_sources-IsReadable :
      {W : Type 0} (host : Host W) (i : FindSourcesInput) (s : State W)
      → Concludes
          (λ shown t.
            ((decide locale g discover_existence (in_store "index")).decision ≡ allow)
            × ((found : FindSourcesResult) × (Reads.find_sources host i s ≡ (ok found, t))
                × All (IsReadable found) shown.index_records))
          (λ d t. (d.decision ≡ deny) × (t ≡ s))
          (λ e t. Unit)
          (find_sources locale host g i s)
  unfolding find_sources
  find_sources-IsReadable {W} host i s =
      let P : ShownSources → State W → Type 0 = λ shown t.
        ((decide locale g discover_existence (in_store "index")).decision ≡ allow)
        × ((found : FindSourcesResult) × (Reads.find_sources host i s ≡ (ok found, t))
            × All (IsReadable found) shown.index_records) in
      elim (enforce-Gated locale g discover_existence (in_store "index")
        (λ d.
          delegate (Reads.find_sources host i) >>= λ found. pure (filter_sources locale g found))
        s) [
          | inl (denies, e) ↦ rw e (denies, refl)
          | inr (allows, e) ↦ rw e (
              mapped-Concludes P _ (Reads.find_sources host i) (filter_sources locale g) s
                (λ found t run. (allows, (found, run, filter_sources-IsReadable found))))
        ]
