-- ===== src/Kernel/Reads.antt =====
-- The reads of src/kernel/cluster-kernel.ts: `findSources`, `inspectEntity`, `listEntityVersions`,
-- `getEntityVersion`, `listArtifactVersions`, `traceProvenance`, `listReceipts`, `indexStatus`,
-- `explainIndex`, `listStaleRecords` and `withNextValidActions`.
use db_cluster.Prelude.{
  ℕ, ◌+◌, String, not, Option, none, some, List, [], ◌∷◌, ◌++◌, ◌==◌, any, length, nat_beq,
  if◌then◌else◌,
}
use db_cluster.Json.{template, decimal}
use db_cluster.Errors.{not_found, provenance_missing}
use db_cluster.Commands.{Command, CommandStatus, valid_transitions}
use db_cluster.Canonical.{Entity}
use db_cluster.Ledger.{ReceiptFilter}
use db_cluster.Ledger.Types.{Event, Receipt}
use db_cluster.Stores.{Host, Artifact, IndexRecord}
use db_cluster.Kernel.Reports.{
  IndexStatus, absent, IndexExplanation, StaleRecord, count_stores, explained, explain_canonical,
  explain_artifact, explain_ledger, stale_canonical, stale_without,
}
use db_cluster.Kernel.Action.{Action, call, pure, throw_error, ◌>>=◌}

-- `FindSourcesInput`
pub record FindSourcesInput : Type 0 where
  pub query : String
  pub limit : Option ℕ
  pub offset : Option ℕ

-- `_meta` of an empty result
pub data EmptyReason : Type 0 where
  no_data : EmptyReason
  no_match : String → ℕ → EmptyReason
  all_filtered_by_policy : ℕ → EmptyReason

-- `FindSourcesResult`
pub record FindSourcesResult : Type 0 where
  pub index_records : List IndexRecord
  pub resolved_entities : List Entity
  pub resolved_artifacts : List Artifact
  pub empty_reason : Option EmptyReason

-- the `remediation_hint` of each reason
unfoldable pub remediation_hint : EmptyReason → String
remediation_hint no_data = template (
    "The cluster has no indexed records. Ingest artifacts or "
    ∷ "create entities (see `db-cluster ingest` / `db-cluster "
    ∷ "create-entity` or `cluster.ingestArtifact` / " ∷ "`cluster.createEntity`)." ∷ [])
remediation_hint (no_match query total) = template (
    "No records match query \""
    ∷ query
    ∷ "\". The cluster has "
    ∷ decimal total
    ∷ " indexed records — try a broader query, "
    ∷ "or use `db-cluster index status` (CLI) / `cluster.indexStatus()` "
    ∷ "(SDK) to see what kinds are indexed."
    ∷ [])
remediation_hint (all_filtered_by_policy count) = template (
    decimal count
    ∷ " record(s) matched the query but were filtered "
    ∷ "out by policy. The principal lacks 'read_owner_truth' or "
    ∷ "'read_derivative' for the matching records. Request the "
    ∷ "capability (operator action — grant the role/scope), or "
    ∷ "accept the empty result."
    ∷ [])

-- `CommandLifecycleEnvelope`
pub record CommandEnvelope : Type 0 where
  pub command : Command
  pub next_valid_actions : List CommandStatus

-- `withNextValidActions`
unfoldable pub with_next_valid_actions : Command → CommandEnvelope
with_next_valid_actions c = record { command = c; next_valid_actions = valid_transitions c.status }

-- the events of a chain whose ids were not seen yet, put behind those that were
unfoldable pub add_unseen : List Event → List Event → List Event
add_unseen traced [] = traced
add_unseen traced (e ∷ es) =
    add_unseen (if any (λ (t : Event). t.id == e.id) traced then traced else traced ++ e ∷ []) es

-- `xs.push(x)` where there is one
abbrev with_found : {A : Type 0} → List A → Option A → List A
with_found xs none = xs
with_found xs (some x) = xs ++ x ∷ []

module _ {W : Type 0} (host : Host W) where
  -- what a record resolves to, put behind what the others do
  abbrev resolve_source :
      IndexRecord → List Entity × List Artifact → Action W (List Entity × List Artifact)
  resolve_source r (es, as') =
      if r.source_store == "canonical"
      then (do e ← call (host.canonical_get r.source_id); pure (with_found es e, as'))
      else if r.source_store == "artifact"
      then (do a ← call (host.artifact_get r.source_id); pure (es, with_found as' a))
      else pure (es, as')

  -- the loop of `findSources`
  unfoldable pub resolve_sources :
      List IndexRecord → List Entity × List Artifact → Action W (List Entity × List Artifact)
  resolve_sources [] found = pure found
  resolve_sources (r ∷ rs) found = do found' ← resolve_source r found; resolve_sources rs found'

  -- the result where nothing was found
  unfoldable pub explain_empty : FindSourcesInput → Action W FindSourcesResult
  explain_empty i = do
    total ← call host.index_count
    pure (record {
      index_records = [];
      resolved_entities = [];
      resolved_artifacts = [];
      empty_reason = some (if nat_beq total 0 then no_data else no_match i.query total);
    })

  unfoldable pub found_sources :
      FindSourcesInput → List IndexRecord → List Entity × List Artifact → Action W FindSourcesResult
  unfolding explain_empty
  found_sources i [] ([], []) = explain_empty i
  found_sources i records (es, as') = pure (record {
    index_records = records;
    resolved_entities = es;
    resolved_artifacts = as';
    empty_reason = none;
  })

  -- `findSources`
  unfoldable pub find_sources : FindSourcesInput → Action W FindSourcesResult
  unfolding resolve_sources found_sources
  find_sources i = do
    records ← call (
        host.index_query (record { query_text = some i.query; limit = i.limit; offset = i.offset }))
    found ← resolve_sources records ([], [])
    found_sources i records found

  -- the record of a store, and `NotFoundError` where there is none
  unfoldable pub must_find : {A : Type 0} → (store id : String) → Option A → Action W A
  must_find store id none = throw_error (not_found store id)
  must_find store id (some a) = pure a

  -- `inspectEntity`
  unfoldable pub inspect_entity : String → Action W Entity
  unfolding must_find
  inspect_entity id = do found ← call (host.canonical_get id); must_find "canonical" id found

  -- `listEntityVersions`, `getEntityVersion` and `listArtifactVersions`
  unfoldable pub list_entity_versions : String → Action W (List Entity)
  list_entity_versions id = call (host.canonical_versions id)

  unfoldable pub get_entity_version : String → ℕ → Action W (Option Entity)
  get_entity_version id version = call (host.canonical_version id version)

  unfoldable pub list_artifact_versions : String → Action W (List Artifact)
  list_artifact_versions filename = call (host.artifact_versions filename)

  -- `listReceipts`
  unfoldable pub list_receipts : ReceiptFilter → Action W (List Receipt)
  list_receipts filter = call (host.ledger_list_receipts filter)

  -- the loop of `traceSubjectProvenance`
  unfoldable pub trace_events : List Event → List Event → Action W (List Event)
  unfolding add_unseen
  trace_events [] traced = pure traced
  trace_events (e ∷ es) traced = do
    chain ← call (host.ledger_trace e.id)
    trace_events es (add_unseen traced chain)

  abbrev must_trace : String → List Event → Action W (List Event)
  must_trace id [] = throw_error (provenance_missing id)
  must_trace id (e ∷ es) = trace_events (e ∷ es) []

  -- `traceProvenance`
  unfoldable pub trace_provenance : String → Action W (List Event)
  unfolding trace_events
  trace_provenance id = do
    events ← call (
        host.ledger_list_events
          (record { subject_id = some id; action = none; since = none; limit = none }))
    must_trace id events

  -- the records that the reports on the index look at
  abbrev every_record : Action W (List IndexRecord)
  every_record =
      call (host.index_query (record { query_text = none; limit = some 100000; offset = none }))

  -- `indexStatus`
  unfoldable pub index_status : Action W IndexStatus
  unfolding count_stores
  index_status = do
    total ← call host.index_count
    records ← every_record
    entities ← call host.canonical_list
    artifacts ← call host.artifact_list
    let expected = length entities + length artifacts
    pure (record {
      total = total;
      by_store = count_stores records [];
      expected_total = expected;
      possibly_stale = not (nat_beq total expected);
    })

  -- the `switch` of `explainIndex`
  unfoldable pub explain_record : IndexRecord → Action W IndexExplanation
  unfolding explain_canonical explain_artifact explain_ledger
  explain_record r =
      if r.source_store == "canonical"
      then (do found ← call (host.canonical_get r.source_id); pure (explain_canonical r found))
      else if r.source_store == "artifact"
      then (do found ← call (host.artifact_get r.source_id); pure (explain_artifact r found))
      else if r.source_store == "ledger"
      then (do found ← call (host.ledger_get_event r.source_id); pure (explain_ledger r found))
      else pure (explained r absent none)

  -- `explainIndex`
  unfoldable pub explain_index : String → Action W IndexExplanation
  unfolding must_find explain_record
  explain_index id = do
    found ← call (host.index_get id)
    r ← must_find "index" id found
    explain_record r

  -- the `switch` of `listStaleRecords`
  unfoldable pub check_stale : IndexRecord → Action W (List StaleRecord)
  unfolding stale_canonical stale_without
  check_stale r =
      if r.source_store == "canonical"
      then (do found ← call (host.canonical_get r.source_id); pure (stale_canonical r found))
      else if r.source_store == "artifact"
      then (do
        found ← call (host.artifact_get r.source_id)
        pure (stale_without r "Source artifact deleted" found))
      else if r.source_store == "ledger"
      then (do
        found ← call (host.ledger_get_event r.source_id)
        pure (stale_without r "Source event deleted" found))
      else pure []

  unfoldable pub check_all_stale : List IndexRecord → Action W (List StaleRecord)
  unfolding check_stale
  check_all_stale [] = pure []
  check_all_stale (r ∷ rs) = do here ← check_stale r; rest ← check_all_stale rs; pure (here ++ rest)

  -- `listStaleRecords`
  unfoldable pub list_stale_records : Action W (List StaleRecord)
  unfolding check_all_stale
  list_stale_records = do records ← every_record; check_all_stale records
