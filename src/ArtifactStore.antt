-- ===== src/ArtifactStore.antt =====
-- src/adapters/local/local-artifact-store.ts: the artifacts, whose bytes stand in a directory of files
-- that are named by their hash. A temporary file is not part of that directory: what a failed write
-- leaves of it is swept and never read. A version and a limit are natural numbers.
pub mod Content
pub mod Kept
pub mod Paths
pub mod Numbering
mod Examples
use Prim.Native.Char.{code}
use Prim.Native.String
use db_cluster.Prelude.{
  ℕ, zero, suc, ◌+◌, String, Bool, true, false, not, ◌&&◌, ◌||◌, Option, none, some, List, [], ◌∷◌,
  ◌==◌, leb, filter, length, take, is_empty, if◌then◌else◌,
}
use db_cluster.Stores.{Artifact}
use db_cluster.Canonical.{contains}
use db_cluster.Keyed.{
  Table, Reply, throw, return, invalid_content_hash, content_read_integrity, assert_content_match,
  find_row, set_row, load_rows, replace_file, persist_rows,
}

-- A file of the content directory.
pub record Blob : Type 0 where
  pub name : String
  pub bytes : List ℕ

-- `content_path` is `join(this.contentDir, name)`
pub record Store : Type 0 where
  pub table : Table Artifact
  pub content_path : String → String
  pub blobs : List Blob

abbrev pub artifact_id : Artifact → String
artifact_id a = a.id

-- `[a-f0-9]`
abbrev is_hex_digit : ℕ → Bool
is_hex_digit c = (leb b'a' c && leb c b'f') || (leb b'0' c && leb c b'9')

-- `^[a-f0-9]{n}$`
unfoldable pub is_hex : ℕ → String → Bool
is_hex zero String.[] = true
is_hex zero (String.◌∷◌ c s) = false
is_hex (suc n) String.[] = false
is_hex (suc n) (String.◌∷◌ c s) = is_hex_digit (code c) && is_hex n s

-- `isValidContentHash`
unfoldable pub is_valid_content_hash : String → Bool
unfolding is_hex
is_valid_content_hash hash = is_hex 64 hash

-- the file of the content directory by its name, where it exists
unfoldable pub find_blob : List Blob → String → Option (List ℕ)
find_blob [] name = none
find_blob (b ∷ bs) name = if b.name == name then some b.bytes else find_blob bs name

unfoldable pub open_with : Store → Reply (List Artifact) → Reply Store
open_with s (throw e) = throw e
open_with s (return rows) = return (record s { table = record s.table { rows = rows } })

-- the constructor: the map is what `load` makes of the file
unfoldable pub open_store : Store → Reply Store
unfolding load_rows open_with
open_store s = open_with s (load_rows artifact_id s.table.file_path s.table.file)

-- `get`
unfoldable pub get_artifact : Store → String → Option Artifact
unfolding find_row
get_artifact s id = find_row artifact_id s.table.rows id

-- `exists`
unfoldable pub exists_artifact : Store → String → Bool
unfolding get_artifact
exists_artifact s id = elim (get_artifact s id) [ none ↦ false | some a ↦ true ]

module _ (sha256 : List ℕ → String) where
  -- `getContent` behind its first gate
  unfoldable pub checked_content : Artifact → Option (List ℕ) → Reply (Option (List ℕ))
  checked_content a none = return none
  checked_content a (some bytes) =
      if sha256 bytes == a.content_hash
      then return (some bytes)
      else throw (content_read_integrity a.id a.content_hash (sha256 bytes))

  -- `getContent` of what `get` gives
  unfoldable pub content_of : Store → Option Artifact → Reply (Option (List ℕ))
  unfolding is_valid_content_hash find_blob checked_content
  content_of s none = return none
  content_of s (some a) =
      if is_valid_content_hash a.content_hash
      then checked_content a (find_blob s.blobs a.content_hash)
      else throw (invalid_content_hash a.content_hash)

  -- `getContent`
  unfoldable pub get_content : Store → String → Reply (Option (List ℕ))
  unfolding get_artifact content_of
  get_content s id = content_of s (get_artifact s id)

pub record ArtifactFilter : Type 0 where
  pub mime_type : Option String
  pub filename_contains : Option String
  pub limit : Option ℕ

abbrev by_mime_type : Option String → List Artifact → List Artifact
by_mime_type none xs = xs
by_mime_type (some m) xs = if m == "" then xs else filter (λ (a : Artifact). a.mime_type == m) xs

abbrev by_filename : (String → String) → Option String → List Artifact → List Artifact
by_filename lower none xs = xs
by_filename lower (some q) xs =
    if q == "" then xs else filter (λ (a : Artifact). contains (lower a.filename) (lower q)) xs

abbrev up_to : Option ℕ → List Artifact → List Artifact
up_to none xs = xs
up_to (some zero) xs = xs
up_to (some (suc n)) xs = take (suc n) xs

-- `list`; `lower` is `String.prototype.toLowerCase`
unfoldable pub list_artifacts : (lower : String → String) → Store → ArtifactFilter → List Artifact
unfolding contains
list_artifacts lower s f =
    up_to f.limit (by_filename lower f.filename_contains (by_mime_type f.mime_type s.table.rows))

-- the artifacts of a filename, in the order of the map
unfoldable pub named : List Artifact → String → List Artifact
named xs filename = filter (λ (a : Artifact). a.filename == filename) xs

-- `Array.prototype.sort` by `a.version - b.version`, which is stable
unfoldable pub insert_artifact : Artifact → List Artifact → List Artifact
insert_artifact a [] = a ∷ []
insert_artifact a (b ∷ bs) =
    let rest = insert_artifact a bs in if leb a.version b.version then a ∷ b ∷ bs else b ∷ rest

unfoldable pub sort_artifacts : List Artifact → List Artifact
unfolding insert_artifact
sort_artifacts [] = []
sort_artifacts (a ∷ as') = insert_artifact a (sort_artifacts as')

-- `versions`
unfoldable pub versions : Store → String → List Artifact
unfolding named sort_artifacts
versions s filename = sort_artifacts (named s.table.rows filename)

-- the files behind a write: the renamed one is there where it did not throw
unfoldable pub add_blob : Reply (Unit {0}) → Blob → List Blob → List Blob
add_blob (throw e) b bs = bs
add_blob (return done) b bs = b ∷ bs

-- the write of the bytes under their name, by the file that has it
unfoldable pub write_where :
    (name : String) → List ℕ → Store → Option (List ℕ) → Reply (Unit {0}) × Store
unfolding replace_file add_blob
write_where name bytes s (some there) = (return tt, s)
write_where name bytes s none =
    let written = replace_file {R = Unit {0}} tt (λ (t : Table Artifact). t) s.table in
    (
      written.0,
      record s {
        table = written.1;
        blobs = add_blob written.0 (record { name = name; bytes = bytes }) s.blobs;
      },
    )

-- the write of the bytes under their name, where no file has it yet
unfoldable pub write_content : (name : String) → List ℕ → Store → Reply (Unit {0}) × Store
unfolding find_blob write_where
write_content name bytes s = write_where name bytes s (find_blob s.blobs name)

-- `this.artifacts.set(artifact.id, artifact)` and `persist`, behind the write of the bytes; an artifact is
-- a record of texts and numbers, which JSON gives back
unfoldable pub store_artifact : Artifact → Reply (Unit {0}) × Store → Reply Artifact × Store
unfolding set_row persist_rows
store_artifact a (throw e, s) = (throw e, s)
store_artifact a (return done, s) =
    let kept =
      persist_rows (λ (x : Artifact). x) a
        (record s.table { rows = set_row artifact_id s.table.rows a }) in
    (kept.0, record s { table = kept.1 })

pub record ArtifactIngestInput : Type 0 where
  pub filename : String
  pub content : List ℕ
  pub mime_type : String

-- the artifact that `ingest` makes
unfoldable pub ingested_artifact :
    (sha256 : List ℕ → String) (id now : String) → ArtifactIngestInput → Store → Artifact
unfolding named
ingested_artifact sha256 id now input s = record {
  id = id;
  filename = input.filename;
  content_hash = sha256 input.content;
  mime_type = input.mime_type;
  size_bytes = length input.content;
  version = length (named s.table.rows input.filename) + 1;
  storage_path = s.content_path (sha256 input.content);
  ingested_at = now;
}

-- `ingest`, with the new id and the time
unfoldable pub ingest :
    (sha256 : List ℕ → String) (id now : String)
    → ArtifactIngestInput
    → Store
    → Reply Artifact × Store
unfolding ingested_artifact write_content store_artifact
ingest sha256 id now input s =
    store_artifact (ingested_artifact sha256 id now input s)
      (write_content (sha256 input.content) input.content s)

-- `importSnapshot` of a hash that is valid, by the artifact of that id; `json` is `JSON.stringify` without
-- the owner and the storage path
unfoldable pub import_by :
    (json : Artifact → String)
    → Artifact
    → List ℕ
    → Store
    → Option Artifact
    → Reply Artifact × Store
unfolding write_content store_artifact
import_by json a content s (some existing) =
    (assert_content_match json "artifact" a.id existing a, s)
import_by json a content s none =
    store_artifact (record a { storage_path = s.content_path a.content_hash })
      (write_content a.content_hash content s)

-- `importSnapshot`
unfoldable pub import_snapshot :
    (json : Artifact → String) → Artifact → List ℕ → Store → Reply Artifact × Store
unfolding is_valid_content_hash get_artifact import_by
import_snapshot json a content s =
    let imported = import_by json a content s (get_artifact s a.id) in
    if is_valid_content_hash a.content_hash
    then imported
    else (throw (invalid_content_hash a.content_hash), s)
