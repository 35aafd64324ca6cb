-- ===== src/Enforced/Searches.antt =====
-- The reads of `PolicyEnforcedKernel` over the index: `findSources`, `explainIndex`, `listStaleRecords` and
-- `indexStatus`.
use Prim.Native.Nat.{Ordering}
use db_cluster.Prelude.{
  ℕ, ◌+◌, String, Bool, true, false, ◌&&◌, ◌||◌, Option, none, some, List, ◌==◌, map, filter,
  length, includes, is_empty, nat_beq, if◌then◌else◌,
}
use db_cluster.Json.{Fields}
use db_cluster.Canonical.{Entity}
use db_cluster.Ledger.Types.{event_fields}
use db_cluster.Stores.{Host, Artifact, IndexRecord}
use db_cluster.Policy.{
  discover_existence, read_owner_truth, read_derivative, explain_retrieval, RedactionRule,
  check_visibility,
}
use db_cluster.Redactor.{redact_artifact, redact_entity, redact_provenance_event}
use db_cluster.Kernel.Reads.{
  FindSourcesInput, FindSourcesResult, EmptyReason, all_filtered_by_policy,
}
use db_cluster.Kernel.Reports.{IndexExplanation, Source, StaleRecord, IndexStatus}
use db_cluster.Kernel.Reads
use db_cluster.Enforced.{
  Gatekeeper, Resource, anything, Guarded, delegate, pure, ◌>>=◌, is_allowed, enforce,
  collect_redaction_rules, entity_fields, artifact_fields, shown,
}
use db_cluster.Enforced.Reads.{
  uri_of, in_store, object_in, entity_resource, artifact_resource, permitted, filter_items,
}

-- `FindSourcesResult`, with the records redacted
pub record ShownSources : Type 0 where
  pub index_records : List IndexRecord
  pub resolved_entities : List Fields
  pub resolved_artifacts : List Fields
  pub empty_reason : Option EmptyReason

-- `IndexExplanation`, with the source redacted
pub record ShownExplanation : Type 0 where
  pub index_record_id : String
  pub source_id : String
  pub source_store : String
  pub indexed_at : String
  pub text : String
  pub source_exists : Bool
  pub source_object : Option Fields
  pub stale : Bool
  pub stale_cause : Option String

-- the URI of a source, under the index
abbrev pub derivative_resource : IndexRecord → Resource
derivative_resource r = record anything {
  owner_store = some "index";
  resource_uri = some (uri_of r.source_store r.source_id);
}

-- the source itself
abbrev pub source_resource : IndexRecord → Resource
source_resource r = object_in r.source_store r.source_id

abbrev pub visible : Gatekeeper → (store id : String) → Bool
visible g store id =
    (check_visibility (some (uri_of store id)) (some store) g.visibility_rules).existence_visible

abbrev entity_ids : List Entity → List String
entity_ids es = map (λ (e : Entity). e.id) es

abbrev artifact_ids : List Artifact → List String
artifact_ids as' = map (λ (a : Artifact). a.id) as'

module _ (locale : String → String → Ordering) (g : Gatekeeper) where
  abbrev pub readable_entities : FindSourcesResult → List Entity
  readable_entities r = permitted locale g read_owner_truth entity_resource r.resolved_entities

  abbrev pub readable_artifacts : FindSourcesResult → List Artifact
  readable_artifacts r = permitted locale g read_owner_truth artifact_resource r.resolved_artifacts

  -- whether the source of an index record may be read: it was resolved and permitted, or is permitted
  unfoldable pub reads_source : FindSourcesResult → IndexRecord → Bool
  unfolding permitted
  reads_source result r =
      if r.source_store == "canonical"
      then includes (entity_ids (readable_entities result)) r.source_id
        || is_allowed locale g read_owner_truth (source_resource r)
      else if r.source_store == "artifact"
      then includes (artifact_ids (readable_artifacts result)) r.source_id
        || is_allowed locale g read_owner_truth (source_resource r)
      else true

  -- whether an index record passes
  unfoldable pub passes : FindSourcesResult → IndexRecord → Bool
  unfolding reads_source
  passes result r =
      is_allowed locale g read_derivative (derivative_resource r)
      && (reads_source result r && visible g r.source_store r.source_id)

  abbrev count_found : FindSourcesResult → ℕ
  count_found r = length r.index_records + length r.resolved_entities + length r.resolved_artifacts

  -- `_meta`: what was found and filtered out, or what the kernel says
  abbrev reason_of :
      FindSourcesResult → List IndexRecord → List Fields → List Fields → Option EmptyReason
  reason_of r records es as' =
      if is_empty records && (is_empty es && is_empty as')
      then (if nat_beq (count_found r) 0
          then r.empty_reason
          else some (all_filtered_by_policy (count_found r)))
      else none

  -- what `findSources` makes of the result of the kernel
  unfoldable pub filter_sources : FindSourcesResult → ShownSources
  unfolding passes filter_items entity_fields artifact_fields redact_entity redact_artifact
  filter_sources r =
      let records = filter (passes r) r.index_records in
      let es =
        filter_items locale g read_owner_truth entity_resource redact_entity entity_fields
          r.resolved_entities in
      let as' =
        filter_items locale g read_owner_truth artifact_resource redact_artifact artifact_fields
          r.resolved_artifacts in
      record {
        index_records = records;
        resolved_entities = es;
        resolved_artifacts = as';
        empty_reason = reason_of r records es as';
      }

abbrev shown_source : List RedactionRule → Source → Option Fields
shown_source rules Source.absent = none
shown_source rules (Source.entity e) = some (shown redact_entity rules (entity_fields e))
shown_source rules (Source.artifact a) = some (shown redact_artifact rules (artifact_fields a))
shown_source rules (Source.event e) = some (shown redact_provenance_event rules (event_fields e))

abbrev explanation : IndexExplanation → Bool → Option Fields → ShownExplanation
explanation x there source = record {
  index_record_id = x.index_record_id;
  source_id = x.source_id;
  source_store = x.source_store;
  indexed_at = x.indexed_at;
  text = x.text;
  source_exists = there;
  source_object = source;
  stale = x.stale;
  stale_cause = x.stale_cause;
}

-- what `explainIndex` makes of the explanation of the kernel
unfoldable pub show_explanation :
    Gatekeeper → List RedactionRule → IndexExplanation → ShownExplanation
unfolding shown entity_fields artifact_fields redact_entity redact_artifact redact_provenance_event
show_explanation g rules x =
    if visible g x.source_store x.source_id
    then explanation x x.source_exists (shown_source rules x.source_object)
    else explanation x false none

-- the filter of `listStaleRecords`
unfoldable pub visible_stale : Gatekeeper → List StaleRecord → List StaleRecord
visible_stale g rs = filter (λ (r : StaleRecord). visible g r.source_store r.source_id) rs

module _ {W : Type 0} (locale : String → String → Ordering) (host : Host W) (g : Gatekeeper) where
  -- `findSources`
  unfoldable pub find_sources : FindSourcesInput → Guarded W ShownSources
  unfolding filter_sources
  find_sources i = do
    _ ← enforce locale g discover_existence (in_store "index")
    result ← delegate (Reads.find_sources host i)
    pure (filter_sources locale g result)

  -- `explainIndex`
  unfoldable pub explain_index : String → Guarded W ShownExplanation
  unfolding show_explanation collect_redaction_rules
  explain_index id = do
    d ← enforce locale g explain_retrieval (in_store "index")
    x ← delegate (Reads.explain_index host id)
    pure (show_explanation g (collect_redaction_rules g d) x)

  -- `listStaleRecords`
  unfoldable pub list_stale_records : Guarded W (List StaleRecord)
  unfolding visible_stale
  list_stale_records = do
    _ ← enforce locale g explain_retrieval (in_store "index")
    rs ← delegate (Reads.list_stale_records host)
    pure (visible_stale g rs)

  -- `indexStatus`
  unfoldable pub index_status : Guarded W IndexStatus
  index_status = do
    _ ← enforce locale g read_derivative (in_store "index")
    delegate (Reads.index_status host)
