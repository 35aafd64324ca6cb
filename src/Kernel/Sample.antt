-- ===== src/Kernel/Sample.antt =====
-- A command, and an adapter over the ledger of the local store, on which the examples run.
use db_cluster.Prelude.{String, none, some, [], ◌∷◌, ◌==◌, refl}
use db_cluster.Json.{end, field, str}
use db_cluster.Errors.{Result, ok, err, host_error}
use db_cluster.StoreErrors.{Reply, throw, return}
use db_cluster.Commands.{Command, create_entity, validated, propose_command}
use db_cluster.Canonical.{Entity}
use db_cluster.Ledger.{Ledger, append, append_receipt, assemble_receipt, push_receipt}
use db_cluster.Ledger.Types.{event_sealed, receipt_sealed}
use db_cluster.Ledger.Log.{missing, append_one, stamp, stamp_with}
use db_cluster.Stores.{Host, Artifact, IndexRecord}
use db_cluster.Kernel.Stored.{in_memory}
use db_cluster.Kernel.Action.{State}
use db_cluster.Kernel.Outcomes.{IsEchoing}
use db_cluster.Kernel.Returning.{IsCalm}

unfoldable pub nameless : Command
unfolding propose_command
nameless =
    propose_command "c1" "t0" create_entity "canonical" (field "kind" (str "Person") end)
      "analyst:1"

abbrev pub echo : String → String
echo t = t

abbrev pub alice : Entity
alice = record {
  id = "n1";
  kind = "Person";
  name = "Alice";
  attributes = end;
  version = 1;
  created_at = "t0";
  updated_at = "t0";
}

abbrev pub report : Artifact
report = record {
  id = "a1";
  filename = "report.pdf";
  content_hash = "h";
  mime_type = "application/pdf";
  size_bytes = 1;
  version = 1;
  storage_path = "a1";
  ingested_at = "t0";
}

abbrev pub found_alice : IndexRecord
found_alice = record {
  id = "i1";
  source_id = "n1";
  source_store = "canonical";
  text = "Person: Alice";
  metadata = end;
  indexed_at = "t0";
}

abbrev pub as_result : {A : Type 0} → Reply A × Ledger → Result A × Ledger
as_result (return a, l) = (ok a, l)
as_result (throw e, l) = (err (host_error "the ledger failed"), l)

-- an adapter of one entity, one artifact, and the local ledger with files that are always written
abbrev pub local_host : Host Ledger
local_host = record {
  now = λ l. ("2026-01-01", l);
  random_uuid = λ l. ("u1", l);
  sha256 = λ bytes. "h";
  to_text = λ v. "";
  scrub_paths = echo;
  name_of = λ text. "Error";
  staging_path = echo;
  write_staged = λ hash bytes l. (ok tt, l);
  read_staged = λ hash l. (ok none, l);
  remove_staged = λ hash l. (ok tt, l);
  canonical_get = λ id l. (ok (some alice), l);
  canonical_list = λ l. (ok (alice ∷ []), l);
  canonical_exists = λ id l. (ok (id == "n1"), l);
  canonical_create = λ kind name attributes l. (ok (record alice { kind = kind; name = name }), l);
  canonical_update = λ id name attributes l. (ok alice, l);
  canonical_versions = λ id l. (ok (alice ∷ []), l);
  canonical_version = λ id version l. (ok none, l);
  artifact_get = λ id l. (ok (some report), l);
  artifact_versions = λ name l. (ok (report ∷ []), l);
  index_get = λ id l. (ok (some found_alice), l);
  index_count = λ l. (ok 1, l);
  index_query = λ q l. (ok (found_alice ∷ []), l);
  artifact_list = λ l. (ok (report ∷ []), l);
  artifact_exists = λ id l. (ok (id == "a1"), l);
  artifact_ingest = λ filename content mime l. (ok report, l);
  index_search = λ text metadata l. (ok (found_alice ∷ []), l);
  index_add = λ i l. (ok found_alice, l);
  index_remove = λ id l. (ok tt, l);
  index_replace_all = λ is l. (ok tt, l);
  ledger_append =
      λ i l. as_result (append echo echo "e1" "2026-01-01" i (record l { fault = λ n. none }));
  ledger_append_receipt = λ i l.
      as_result (append_receipt echo echo "r1" "2026-01-01" i (record l { fault = λ n. none }));
  ledger_list_events = λ f l. (ok l.events, l);
  ledger_get_event = λ id l. (ok none, l);
  ledger_list_receipts = λ f l. (ok l.receipts, l);
  ledger_trace = λ id l. (ok [], l);
}

pub local_host-IsEchoing : IsEchoing local_host
unfolding append_receipt push_receipt append_one stamp stamp_with assemble_receipt
local_host-IsEchoing i l = refl

pub local_host-IsCalm : IsCalm local_host
unfolding append append_receipt
local_host-IsCalm = record {
  creates = λ kind name attributes w. refl;
  indexes = λ i w. refl;
  appends = λ i w. refl;
  receipts = λ i w. refl;
}

abbrev pub empty_ledger : Ledger
empty_ledger = record {
  events = [];
  receipts = [];
  events_path = "events.json";
  receipts_path = "receipts.json";
  events_file = missing;
  receipts_file = missing;
  writes = 0;
  fault = λ n. none;
}

-- a validated command that creates an entity
unfoldable pub ready : Command
unfolding nameless
ready = record nameless {
  payload = field "kind" (str "Person") (field "name" (str "Alice") end);
  status = validated;
}

abbrev pub start : State Ledger
start = record { world = empty_ledger; commands = in_memory (ready ∷ []) }
