-- ===== src/Kernel/Arms.antt =====
-- The arms of the `switch` of `commitMutation` and `performIndexRebuild` of
-- src/kernel/cluster-kernel.ts: the mutation of the stores, by the verb of the command.
use db_cluster.Prelude.{
  ℕ, String, Bool, true, ◌&&◌, Option, none, some, List, [], ◌∷◌, ◌++◌, ◌==◌, map, filter, length,
  get_last?, if◌then◌else◌,
}
use db_cluster.Json.{
  Value, null, num, str, buffer, obj, Fields, field, end, get_field, spread, is_object, template,
  decimal,
}
use db_cluster.Errors.{
  Result, ok, err, not_found, command_rejected, content_hash_mismatch, staged_content_tampered,
  host_error,
}
use db_cluster.Commands.{
  Command, CommandVerb, update_entity, create_entity, ingest_artifact, link_evidence, reindex,
  verb_name, mark_rejected,
}
use db_cluster.Canonical.{Entity}
use db_cluster.Ledger.Types.{Event}
use db_cluster.Stores.{Host, Artifact, IndexInput, IndexRecord}
use db_cluster.Kernel.Action.{Action, call, draw, check, pure, throw_error, ◌>>=◌}
use db_cluster.Kernel.Recording.{record_provenance, save_command, staging, sweep_staged}

-- What an arm leaves for the writes behind it: `affectedIds`, `resultSummary`, `primarySubjectStore`,
-- `mutationPrevious` and `mutationParentEventId`.
pub record Mutated : Type 0 where
  pub affected : List String
  pub summary : String
  pub subject_store : String
  pub previous : Option Fields
  pub parent : Option String

abbrev pub mutated : List String → String → String → Mutated
mutated affected summary subject_store = record {
  affected = affected;
  summary = summary;
  subject_store = subject_store;
  previous = none;
  parent = none;
}

-- the index record of an entity, and of an artifact
unfoldable pub index_entity : Entity → IndexInput
unfolding spread
index_entity e = record {
  source_id = e.id;
  source_store = "canonical";
  text = template (e.kind ∷ ": " ∷ e.name ∷ []);
  metadata = spread (field "kind" (str e.kind) end) e.attributes;
}

unfoldable pub index_artifact : Artifact → IndexInput
index_artifact a = record {
  source_id = a.id;
  source_store = "artifact";
  text = template (a.filename ∷ " [" ∷ a.mime_type ∷ "]" ∷ []);
  metadata = field "filename" (str a.filename) (
      field "mimeType" (str a.mime_type)
        (field "contentHash" (str a.content_hash) (field "version" (num (decimal a.version)) end)));
}

-- `patch.name` and `patch.attributes` of the patch of an update
abbrev patch_fields : Option Value → Result Fields
patch_fields none = err (host_error "Cannot read properties of undefined (reading 'name')")
patch_fields (some null) = err (host_error "Cannot read properties of null (reading 'name')")
patch_fields (some (obj f)) = ok f
patch_fields (some _) = ok end

-- the string where there is one
abbrev string_of : Option Value → Option String
string_of (some (str s)) = some s
string_of _ = none

-- `attributes ?? {}`
abbrev or_empty : Option Value → Value
or_empty none = obj end
or_empty (some null) = obj end
or_empty (some v) = v

-- the value where it is an object
abbrev object_of : Option Value → Option Value
object_of v = if is_object v then v else none

-- the snapshot of the version that an update displaces
abbrev displaced : Option Entity → Option Fields
displaced none = none
displaced (some e) = some (
    field "entityId" (str e.id) (
      field "version" (num (decimal e.version))
        (field "name" (str e.name) (field "attributes" (obj e.attributes) end))))

-- the id of the last event
abbrev youngest : List Event → Option String
youngest events = elim (get_last? events) [ none ↦ none | some e ↦ some e.id ]

-- `typeof content === 'string' && contentHash && content === contentHash`
abbrev staged_hash : Bool → Option Value → Option Value → Option String
staged_hash true (some (str content)) (some (str hash)) =
    if content == "" then none else (if content == hash then some hash else none)
staged_hash _ _ _ = none

-- the records of the index of an entity
abbrev is_record_of : String → IndexRecord → Bool
is_record_of id r = (r.source_id == id) && (r.source_store == "canonical")

module _ {W : Type 0} (host : Host W) where
  -- A value of the payload where the code takes a string; a payload that passed its check has one.
  unfoldable pub text_of : Option Value → String
  text_of (some (str s)) = s
  text_of v = host.to_text v

  unfoldable pub remove_records : List IndexRecord → Action W (Unit {0})
  remove_records [] = pure tt
  remove_records (r ∷ rs) = do _ ← call (host.index_remove r.id); remove_records rs

  unfoldable pub commit_update_entity : Fields → Action W Mutated
  unfolding get_field text_of index_entity
  commit_update_entity payload =
      let id = text_of (get_field payload "entityId") in
      do
        prior ← call (host.canonical_get id)
        events ← call (
            host.ledger_list_events
              (record { subject_id = some id; action = none; since = none; limit = none }))
        patch ← check (patch_fields (get_field payload "patch"))
        updated ← call (
            host.canonical_update id (string_of (get_field patch "name"))
              (object_of (get_field patch "attributes")))
        stale ← call (host.index_search "" end)
        _ ← remove_records (filter (is_record_of id) stale)
        _ ← call (host.index_add (index_entity updated))
        pure (record {
          affected = updated.id ∷ [];
          summary = template ("Updated entity: " ∷ updated.name ∷ []);
          subject_store = "canonical";
          previous = displaced prior;
          parent = youngest events;
        })

  unfoldable pub commit_create_entity : Fields → Action W Mutated
  unfolding get_field text_of index_entity
  commit_create_entity payload =
      let kind = text_of (get_field payload "kind") in
      let entity_name = text_of (get_field payload "name") in
      do
        entity ←
            call
              (host.canonical_create kind entity_name (or_empty (get_field payload "attributes")))
        _ ← call (host.index_add (index_entity entity))
        pure (
            mutated (entity.id ∷ []) (template ("Created entity: " ∷ kind ∷ "/" ∷ entity_name ∷ []))
              "canonical")

  -- the staged bytes, where they are there and hash to the name of their file
  unfoldable pub read_back : String → Option (List ℕ) → Result (List ℕ)
  read_back hash none = err (staged_content_tampered hash (host.staging_path hash) "<missing>")
  read_back hash (some bytes) =
      if host.sha256 bytes == hash
      then ok bytes
      else err (staged_content_tampered hash (host.staging_path hash) (host.sha256 bytes))

  abbrev claimed : Option Value → String
  claimed (some (str hash)) = hash
  claimed _ = "<missing>"

  -- the bytes of the payload itself
  unfoldable pub payload_bytes : Option Value → Option Value → Result (List ℕ)
  payload_bytes hash (some (buffer bytes)) = ok bytes
  payload_bytes hash content = err (content_hash_mismatch (claimed hash) "<no-content>")

  -- the bytes to ingest: the staged ones, or those of the payload
  unfoldable pub resolve_content : Option String → Fields → Action W (List ℕ)
  unfolding get_field read_back payload_bytes
  resolve_content (some hash) payload = do
    staged ← call (host.read_staged hash)
    check (read_back hash staged)
  resolve_content none payload =
      check (payload_bytes (get_field payload "contentHash") (get_field payload "content"))

  unfoldable pub sweep_resolved : Option String → Action W (Unit {0})
  sweep_resolved none = pure tt
  sweep_resolved (some hash) = sweep_staged host hash

  unfoldable pub commit_ingest_artifact : Fields → Action W Mutated
  unfolding get_field text_of resolve_content index_artifact
  commit_ingest_artifact payload = do
    there ← staging host
    let hash = staged_hash there (get_field payload "content") (get_field payload "contentHash")
    bytes ← resolve_content hash payload
    artifact ← call (
        host.artifact_ingest (get_field payload "filename") (buffer bytes)
          (get_field payload "mimeType"))
    _ ← call (host.index_add (index_artifact artifact))
    _ ← sweep_resolved hash
    pure (
        mutated (artifact.id ∷ [])
          (template ("Ingested artifact: " ∷ text_of (get_field payload "filename") ∷ []))
          "artifact")

  -- `if (!exists) throw new NotFoundError(store, id)`
  unfoldable pub must_exist : String → String → Bool → Action W (Unit {0})
  must_exist store id there = if there then pure tt else throw_error (not_found store id)

  unfoldable pub commit_link_evidence : (actor : String) → Fields → Action W Mutated
  unfolding get_field text_of record_provenance
  commit_link_evidence actor payload =
      let artifact_id = text_of (get_field payload "artifactId") in
      let entity_id = text_of (get_field payload "entityId") in
      do
        artifact_there ← call (host.artifact_exists artifact_id)
        _ ← must_exist "artifact" artifact_id artifact_there
        entity_there ← call (host.canonical_exists entity_id)
        _ ← must_exist "canonical" entity_id entity_there
        _ ←
            record_provenance host "evidence_linked" actor entity_id "canonical"
              (field "artifactId" (str artifact_id) (field "entityId" (str entity_id) end)) none
        pure (
            mutated (artifact_id ∷ entity_id ∷ [])
              (template ("Linked evidence: " ∷ artifact_id ∷ " → " ∷ entity_id ∷ [])) "canonical")

  -- `performIndexRebuild`
  unfoldable pub perform_index_rebuild : Action W ℕ
  unfolding index_entity index_artifact
  perform_index_rebuild = do
    entities ← call host.canonical_list
    artifacts ← call host.artifact_list
    let staged = map index_entity entities ++ map index_artifact artifacts
    _ ← call (host.index_replace_all staged)
    pure (length staged)

  unfoldable pub commit_reindex : Action W Mutated
  unfolding perform_index_rebuild
  commit_reindex = do
    rebuilt ← perform_index_rebuild
    pure (
        mutated ("index" ∷ [])
          (template ("Index rebuilt: " ∷ decimal rebuilt ∷ " records from owner stores" ∷ []))
          "index")

  -- the arm of any other verb: the command is stored as rejected
  unfoldable pub reject_verb : (id actor : String) → Command → Action W Mutated
  unfolding save_command mark_rejected verb_name
  reject_verb id actor c =
      let reason = template ("Unknown verb: " ∷ verb_name c.verb ∷ []) in
      do
        now ← draw host.now
        _ ← save_command host (mark_rejected now c actor reason)
        throw_error (command_rejected id reason)

  -- the `switch`
  unfoldable pub mutate_by : (id actor : String) → Command → CommandVerb → Action W Mutated
  unfolding commit_update_entity commit_create_entity commit_ingest_artifact commit_link_evidence
      commit_reindex reject_verb
  mutate_by id actor c update_entity = commit_update_entity c.payload
  mutate_by id actor c create_entity = commit_create_entity c.payload
  mutate_by id actor c ingest_artifact = commit_ingest_artifact c.payload
  mutate_by id actor c link_evidence = commit_link_evidence actor c.payload
  mutate_by id actor c reindex = commit_reindex
  mutate_by id actor c _ = reject_verb id actor c
