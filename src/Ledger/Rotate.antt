-- ===== src/Ledger/Rotate.antt =====
-- `rotate`, `recoverInterruptedRotation` and `dedupActiveAgainstArchive` of
-- src/adapters/local/local-ledger-store.ts: a rotation as the sequence of its writes, which a crash may
-- cut off anywhere. Both active files hold lines; a write to a temporary file and its rename are one
-- write of the archive.
use db_cluster.Prelude.{
  ℕ, zero, suc, String, Bool, true, false, not, ◌&&◌, Option, none, some, List, [], ◌∷◌, ◌==◌, map,
  filter, length, is_empty, includes, ltb, if◌then◌else◌,
}
use db_cluster.StoreErrors.{
  Reply, throw, return, invalid_rotate_timestamp, rotate_boundary_in_future, write_failed,
}
use db_cluster.Ledger.Types.{Event, Receipt, Sealed, event_sealed, receipt_sealed}
use db_cluster.Ledger.Log.{Line, blank_line, broken_line, foreign_line, record_line, earlier}

-- What stands in the marker file: the paths of the two archives, or nothing that can be read.
pub data Marker : Type 0 where
  rotate_marker : (events_archive_path receipts_archive_path : String) → Marker
  malformed : Marker

-- An archive file, by its path and its lines.
pub record Archive (A : Type 0) : Type 0 where
  pub path : String
  pub lines : List (Line A)

-- The data directory: the active files, where `none` is no file, the archives, the staged files and the
-- marker.
pub record Folder : Type 0 where
  pub events_lines : Option (List (Line Event))
  pub receipts_lines : Option (List (Line Receipt))
  pub events_archives : List (Archive Event)
  pub receipts_archives : List (Archive Receipt)
  pub staged_events : Option (List (Line Event))
  pub staged_receipts : Option (List (Line Receipt))
  pub marker : Option Marker

module _ {A : Type 0} ⦃s : Sealed A⦄ where
  -- `serializeNdjson`
  abbrev pub serialize_ndjson : List A → List (Line A)
  serialize_ndjson xs = map record_line xs

  unfoldable pub archived_before : String → List A → List A
  unfolding earlier
  archived_before before xs = filter (λ (a : A). earlier (s.time_of a) before) xs

  unfoldable pub retained_since : String → List A → List A
  unfolding earlier
  retained_since before xs = filter (λ (a : A). not (earlier (s.time_of a) before)) xs

  -- the archive that stands at a path
  unfoldable pub lines_at : String → List (Archive A) → List (Line A)
  lines_at path [] = []
  lines_at path (f ∷ fs) = if f.path == path then f.lines else lines_at path fs

  -- `readNdjsonIds`
  unfoldable pub read_ndjson_ids : List (Line A) → List String
  read_ndjson_ids [] = []
  read_ndjson_ids (record_line a ∷ ls) =
      let rest = read_ndjson_ids ls in if s.id_of a == "" then rest else s.id_of a ∷ rest
  read_ndjson_ids (_ ∷ ls) = read_ndjson_ids ls

  -- whether the loop of `dedupActiveAgainstArchive` keeps a line; `JSON.parse(line).id` throws on `null`,
  -- whose type is "object"
  unfoldable pub keeps_line : List String → Line A → Bool
  keeps_line archived blank_line = false
  keeps_line archived (broken_line cause) = false
  keeps_line archived (foreign_line type) = not (type == "object")
  keeps_line archived (record_line a) = not (includes archived (s.id_of a))

  -- `dedupActiveAgainstArchive`
  unfoldable pub dedup_active_against_archive :
      Option (List (Line A)) → List (Line A) → Option (List (Line A))
  unfolding read_ndjson_ids keeps_line
  dedup_active_against_archive none archive = none
  dedup_active_against_archive (some ls) archive =
      let ids = read_ndjson_ids archive in
      if is_empty ids then some ls else some (filter (keeps_line ids) ls)

  -- the archive is written where there is anything to archive
  abbrev pub put_archive : String → List A → List (Archive A) → List (Archive A)
  put_archive path [] fs = fs
  put_archive path (x ∷ xs) fs = record { path = path; lines = serialize_ndjson (x ∷ xs) } ∷ fs

-- The writes of a rotation.
pub data Write : Type 0 where
  archive_events : String → List Event → Write
  archive_receipts : String → List Receipt → Write
  stage_events : List Event → Write
  stage_receipts : List Receipt → Write
  put_marker : Marker → Write
  rename_events rename_receipts : Write
  remove_marker : Write

-- `renameSync` of a staged file; it is there, since it was staged
abbrev pub or_staged : {B : Type 0} → Option B → Option B → Option B
or_staged none active = active
or_staged (some staged) active = some staged

unfoldable pub perform : Write → Folder → Folder
perform (archive_events path xs) f = record f {
  events_archives = put_archive path xs f.events_archives;
}
perform (archive_receipts path xs) f = record f {
  receipts_archives = put_archive path xs f.receipts_archives;
}
perform (stage_events xs) f = record f { staged_events = some (serialize_ndjson xs) }
perform (stage_receipts xs) f = record f { staged_receipts = some (serialize_ndjson xs) }
perform (put_marker m) f = record f { marker = some m }
perform rename_events f = record f {
  events_lines = or_staged f.staged_events f.events_lines;
  staged_events = none;
}
perform rename_receipts f = record f {
  receipts_lines = or_staged f.staged_receipts f.receipts_lines;
  staged_receipts = none;
}
perform remove_marker f = record f { marker = none }

-- The two chains in memory.
pub record Chains : Type 0 where
  pub events : List Event
  pub receipts : List Receipt

-- the writes of `rotate`, in order, for the archives at two new paths
unfoldable pub rotation_writes : (events_path receipts_path before : String) → Chains → List Write
unfolding archived_before retained_since
rotation_writes events_path receipts_path before c =
    archive_events events_path (archived_before before c.events)
    ∷ archive_receipts receipts_path (archived_before before c.receipts)
    ∷ stage_events (retained_since before c.events)
    ∷ stage_receipts (retained_since before c.receipts)
    ∷ put_marker (rotate_marker events_path receipts_path)
    ∷ rename_events
    ∷ rename_receipts
    ∷ remove_marker
    ∷ []

-- the folder after the first `n` of the writes, where the process dies or the next write throws
unfoldable pub crash_after : ℕ → List Write → Folder → Folder
unfolding perform
crash_after n [] f = f
crash_after zero (w ∷ ws) f = f
crash_after (suc n) (w ∷ ws) f = crash_after n ws (perform w f)

-- Which of the files `removeFileBestEffort` fails to remove, which it does not tell.
pub record Stuck : Type 0 where
  pub staged_events : Bool
  pub staged_receipts : Bool
  pub marker : Bool

-- `removeFileBestEffort`, by whether the file is stuck
unfoldable pub remove_best_effort {ℓ} : {B : Type ℓ} → Bool → Option B → Option B
remove_best_effort true file = file
remove_best_effort false file = none

-- the `catch` of `rotate`: the staged files and the marker go, as far as they can be removed
unfoldable pub roll_back : Stuck → Folder → Folder
unfolding remove_best_effort
roll_back stuck f = record f {
  staged_events = remove_best_effort stuck.staged_events f.staged_events;
  staged_receipts = remove_best_effort stuck.staged_receipts f.staged_receipts;
  marker = remove_best_effort stuck.marker f.marker;
}

-- What `rotate` returns.
pub record RotateResult : Type 0 where
  pub archived : ℕ
  pub retained : ℕ
  pub archive_file : Option String

-- the number of the write that throws, with its text; the eighth one, of the marker's removal, never does
abbrev pub Failure : Type 0
Failure = Option (ℕ × String)

-- the first two writes stand before the `try`
abbrev pub failed_at : Stuck → ℕ → Folder → Folder
failed_at stuck zero f = f
failed_at stuck (suc zero) f = f
failed_at stuck (suc (suc n)) f = roll_back stuck f

-- the folder behind both renames, with the marker gone where it can be removed
abbrev pub cleared : Stuck → Folder → Folder
cleared stuck f = record f { marker = remove_best_effort stuck.marker f.marker }

-- the end of a rotation whose writes all landed
unfoldable pub complete_rotation :
    (events_path receipts_path before : String)
    → Stuck
    → Chains
    → Folder
    → Reply RotateResult × Chains × Folder
unfolding rotation_writes crash_after archived_before retained_since remove_best_effort
complete_rotation events_path receipts_path before stuck c f = (
  return (record {
    archived = length (archived_before before c.events);
    retained = length (retained_since before c.events);
    archive_file =
        some (if is_empty (archived_before before c.events) then receipts_path else events_path);
  }),
  record { events = retained_since before c.events; receipts = retained_since before c.receipts },
  cleared stuck (crash_after 7 (rotation_writes events_path receipts_path before c) f),
)

-- the writes, and what becomes of the chains in memory
unfoldable pub commit_rotation :
    (events_path receipts_path before : String)
    → Failure
    → Stuck
    → Chains
    → Folder
    → Reply RotateResult × Chains × Folder
unfolding rotation_writes crash_after roll_back complete_rotation
commit_rotation events_path receipts_path before none stuck c f =
    complete_rotation events_path receipts_path before stuck c f
commit_rotation events_path receipts_path before (some (n, text)) stuck c f =
    if ltb n 7
    then (
      throw (write_failed text),
      c,
      failed_at stuck n (crash_after n (rotation_writes events_path receipts_path before c) f),
    )
    else complete_rotation events_path receipts_path before stuck c f

-- `rotate`; `is_date` is whether `Date.parse` reads the boundary, and the two paths are new
unfoldable pub rotate :
    (is_date : String → Bool) (now events_path receipts_path before : String)
    → Failure
    → Stuck
    → Chains
    → Folder
    → Reply RotateResult × Chains × Folder
unfolding commit_rotation archived_before earlier
rotate is_date now events_path receipts_path before failure stuck c f =
    if is_date before
    then (if earlier now before
        then (throw (rotate_boundary_in_future before now), c, f)
        else (if is_empty (archived_before before c.events)
              && is_empty (archived_before before c.receipts)
            then (
              return (record { archived = 0; retained = length c.events; archive_file = none }),
              c,
              f,
            )
            else commit_rotation events_path receipts_path before failure stuck c f))
    else (throw (invalid_rotate_timestamp before), c, f)

-- `recoverInterruptedRotation`, by what stands in the marker file
unfoldable pub recover_at : Option Marker → Folder → Folder
unfolding dedup_active_against_archive lines_at
recover_at none f = f
recover_at (some malformed) f = record f { marker = none }
recover_at (some (rotate_marker events_path receipts_path)) f = record f {
  events_lines =
      dedup_active_against_archive f.events_lines (lines_at events_path f.events_archives);
  receipts_lines =
      dedup_active_against_archive f.receipts_lines (lines_at receipts_path f.receipts_archives);
  marker = none;
}

unfoldable pub recover_interrupted_rotation : Folder → Folder
unfolding recover_at
recover_interrupted_rotation f = recover_at f.marker f
