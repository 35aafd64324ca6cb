-- ===== src/Canonical.antt =====
-- src/adapters/local/local-canonical-store.ts and src/types/entity.ts: the entities with all their
-- versions. `Map` is a list of buckets in the order of insertion. A version that is a finite number is
-- taken to be a natural number, as src/types/entity.ts says; the sweep of stale temporary files at
-- construction does not touch the store's own file.
pub mod History
pub mod Order
pub mod Reload
pub mod WellFormed
pub mod Durable
mod Examples
pub use db_cluster.StoreErrors.{
  StoreError, entity_not_found, import_conflict, corrupt_store, write_failed, Reply, throw, return,
  assert_content_match,
}
use text.Mathlib.Text.{starts_with}
use Prim.Native.String
use db_cluster.Prelude.{
  ℕ, zero, suc, ◌+◌, String, Bool, true, false, not, Option, none, some, List, [], ◌∷◌, ◌++◌, ◌==◌,
  map, filter, find, take, get_last?, nat_beq, leb, is_empty, if◌then◌else◌,
}
use db_cluster.Json.{Fields, template, decimal}
use db_cluster.Json.Reload.{reload_fields}

-- `Entity`; its owner is always `canonical`
pub record Entity : Type 0 where
  pub id : String
  pub kind : String
  pub name : String
  pub attributes : Fields
  pub version : ℕ
  pub created_at : String
  pub updated_at : String

-- An entity of a file or a backup, where an old one has no version.
pub record Snapshot : Type 0 where
  pub entity : Entity
  pub given_version : Option ℕ

pub record Bucket : Type 0 where
  pub key : String
  pub versions : List Entity

-- What `readFileSync` and `JSON.parse` make of `entities.json`.
pub data File : Type 0 where
  missing : File
  corrupt : String → File
  stored : List Snapshot → File

-- The map in memory, the file, and for each write to come the message with which it fails, if it does.
pub record Store : Type 0 where
  pub entities : List Bucket
  pub file_path : String
  pub file : File
  pub writes : ℕ
  pub write_error : ℕ → Option String

-- `this.entities.get(id)`
unfoldable pub versions_of : List Bucket → String → Option (List Entity)
versions_of [] id = none
versions_of (b ∷ bs) id = if b.key == id then some b.versions else versions_of bs id

-- `this.entities.set(id, versions)`: a key that is there keeps its place
unfoldable pub set_versions : List Bucket → String → List Entity → List Bucket
set_versions [] id es = record { key = id; versions = es } ∷ []
set_versions (b ∷ bs) id es =
    let rest = set_versions bs id es in
    if b.key == id then record { key = b.key; versions = es } ∷ bs else b ∷ rest

-- the versions of an id, none where the map has no entry
unfoldable pub versions_or_none : Option (List Entity) → List Entity
versions_or_none none = []
versions_or_none (some es) = es

-- `listVersions`
unfoldable pub list_versions : Store → String → List Entity
unfolding versions_of versions_or_none
list_versions s id = versions_or_none (versions_of s.entities id)

-- `latest`, which is `get`
unfoldable pub latest : Store → String → Option Entity
unfolding list_versions
latest s id = get_last? (list_versions s id)

-- `exists`
unfoldable pub exists_entity : Store → String → Bool
unfolding list_versions
exists_entity s id = not (is_empty (list_versions s id))

unfoldable pub find_version : List Entity → ℕ → Option Entity
find_version es v = find (λ (e : Entity). nat_beq e.version v) es

-- `getVersion`
unfoldable pub get_version : Store → String → ℕ → Option Entity
unfolding list_versions find_version
get_version s id v = find_version (list_versions s id) v

pub record EntityFilter : Type 0 where
  pub kind : Option String
  pub name_contains : Option String
  pub limit : Option ℕ

-- `text.includes(part)`
unfoldable pub contains : String → String → Bool
contains String.[] part = starts_with String.[] part
contains (String.◌∷◌ c s) part =
    let rest = contains s part in if starts_with (String.◌∷◌ c s) part then true else rest

-- the latest versions of the buckets, one for each that is not empty
unfoldable pub latest_rows : List Bucket → List Entity
latest_rows [] = []
latest_rows (b ∷ bs) = elim (get_last? b.versions) [
  | none ↦ latest_rows bs
  | some e ↦ e ∷ latest_rows bs
]

abbrev by_kind : Option String → List Entity → List Entity
by_kind none es = es
by_kind (some k) es = if k == "" then es else filter (λ (e : Entity). e.kind == k) es

abbrev by_name : (String → String) → Option String → List Entity → List Entity
by_name lower none es = es
by_name lower (some q) es =
    if q == "" then es else filter (λ (e : Entity). contains (lower e.name) (lower q)) es

abbrev up_to : Option ℕ → List Entity → List Entity
up_to none es = es
up_to (some zero) es = es
up_to (some (suc n)) es = take (suc n) es

-- `list`; `lower` is `String.prototype.toLowerCase`
unfoldable pub list_entities : (lower : String → String) → Store → EntityFilter → List Entity
unfolding latest_rows contains
list_entities lower s f =
    up_to f.limit (by_name lower f.name_contains (by_kind f.kind (latest_rows s.entities)))

-- all versions of all entities
unfoldable pub flatten : List Bucket → List Snapshot
flatten [] = []
flatten (b ∷ bs) =
    map (λ (e : Entity). record { entity = e; given_version = some e.version }) b.versions
    ++ flatten bs

-- an entity as `JSON.parse` gives it back
unfoldable pub reload_snapshot : Snapshot → Snapshot
unfolding reload_fields
reload_snapshot x = record x {
  entity = record x.entity { attributes = reload_fields x.entity.attributes };
}

-- what stands in the file behind a write: all versions through `JSON.stringify`
unfoldable pub saved : List Bucket → List Snapshot
unfolding flatten reload_snapshot
saved bs = map reload_snapshot (flatten bs)

-- `persist`: the temporary file is written and then renamed over the store's file
unfoldable pub persist {ℓ} : {A : Type ℓ} → A → Store → Reply A × Store
unfolding saved
persist result s = elim (s.write_error s.writes) [
  | some text ↦ (throw (write_failed text), record s { writes = s.writes + 1 })
  | none ↦ elim (s.write_error (s.writes + 1)) [
    | some text ↦ (throw (write_failed text), record s { writes = s.writes + 2 })
    | none ↦ (return result, record s { writes = s.writes + 2; file = stored (saved s.entities) })
  ]
]

pub record EntityInput : Type 0 where
  pub kind : String
  pub name : String
  pub attributes : Fields

-- the first version of an entity
unfoldable pub first_version : (id now : String) → EntityInput → Entity
first_version id now input = record {
  id = id;
  kind = input.kind;
  name = input.name;
  attributes = input.attributes;
  version = 1;
  created_at = now;
  updated_at = now;
}

-- `create`, with the new id and the time
unfoldable pub create : (id now : String) → EntityInput → Store → Reply Entity × Store
unfolding set_versions first_version persist
create id now input s =
    let e = first_version id now input in
    persist e (record s { entities = set_versions s.entities id (e ∷ []) })

pub record Patch : Type 0 where
  pub name : Option String
  pub attributes : Option Fields

-- the version that follows `current`
unfoldable pub next_version : (now : String) → Entity → Patch → Entity
next_version now current p = record current {
  name = elim p.name [ none ↦ current.name | some n ↦ n ];
  attributes = elim p.attributes [ none ↦ current.attributes | some a ↦ a ];
  version = current.version + 1;
  updated_at = now;
}

-- `update`, by the latest version
unfoldable pub update_from :
    (now id : String) → Patch → Store → Option Entity → Reply Entity × Store
unfolding list_versions set_versions next_version persist
update_from now id p s none = (throw (entity_not_found id), s)
update_from now id p s (some current) =
    let next = next_version now current p in
    persist next
      (record s { entities = set_versions s.entities id (list_versions s id ++ next ∷ []) })

-- `update`
unfoldable pub update : (now id : String) → Patch → Store → Reply Entity × Store
unfolding latest update_from
update now id p s = update_from now id p s (latest s id)

-- `Array.prototype.sort` by `a.version - b.version`, which is stable
unfoldable pub insert_version : Entity → List Entity → List Entity
insert_version e [] = e ∷ []
insert_version e (f ∷ fs) =
    let rest = insert_version e fs in if leb e.version f.version then e ∷ f ∷ fs else f ∷ rest

unfoldable pub sort_versions : List Entity → List Entity
unfolding insert_version
sort_versions [] = []
sort_versions (e ∷ es) = insert_version e (sort_versions es)

-- a version that is missing is 1
unfoldable pub normalise : Snapshot → Entity
normalise x = record x.entity { version = elim x.given_version [ none ↦ 1 | some v ↦ v ] }

-- `importSnapshot` of an id that is known, by its version if that is there
unfoldable pub import_known :
    (json : Entity → String) → Entity → List Entity → Store → Option Entity → Reply Entity × Store
unfolding sort_versions set_versions persist
import_known json e es s (some existing) = (
  assert_content_match json "canonical" (template (e.id ∷ "@" ∷ decimal e.version ∷ [])) existing e,
  s,
)
import_known json e es s none =
    persist e (record s { entities = set_versions s.entities e.id (sort_versions (es ++ e ∷ [])) })

unfoldable pub import_by :
    (json : Entity → String) → Entity → Store → Option (List Entity) → Reply Entity × Store
unfolding find_version import_known
import_by json e s none = persist e (record s { entities = set_versions s.entities e.id (e ∷ []) })
import_by json e s (some es) = import_known json e es s (find_version es e.version)

-- `importSnapshot`
unfoldable pub import_snapshot : (json : Entity → String) → Snapshot → Store → Reply Entity × Store
unfolding normalise versions_of import_by
import_snapshot json x s = let e = normalise x in import_by json e s (versions_of s.entities e.id)

-- the loop of `load` that groups the versions by id
unfoldable pub group : List Bucket → List Snapshot → List Bucket
unfolding versions_of versions_or_none set_versions normalise
group bs [] = bs
group bs (x ∷ xs) =
    let e = normalise x in
    group (set_versions bs e.id (versions_or_none (versions_of bs e.id) ++ e ∷ [])) xs

unfoldable pub sort_buckets : List Bucket → List Bucket
unfolding sort_versions
sort_buckets [] = []
sort_buckets (b ∷ bs) = record b { versions = sort_versions b.versions } ∷ sort_buckets bs

-- `load`
unfoldable pub load_entities : (path : String) → File → Reply (List Bucket)
unfolding group sort_buckets
load_entities path missing = return []
load_entities path (corrupt cause) = throw (corrupt_store path cause)
load_entities path (stored xs) = return (sort_buckets (group [] xs))
