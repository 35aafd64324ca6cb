-- ===== src/Queue/Examples.antt =====
-- A queue on a disk whose writes succeed, and one whose second write fails.
use db_cluster.Prelude.{
  ℕ, String, false, Option, none, some, [], ◌∷◌, ◌≡◌, refl, nat_beq, if◌then◌else◌,
}
use db_cluster.Json.{end}
use db_cluster.Errors.{ok, err, host_error, command_queue_persistence_lost}
use db_cluster.Commands.{Command, reindex, propose_command}
use db_cluster.Queue.{Disk, load, save, persist}
use db_cluster.Queue.Laws.{load-save_lost}

abbrev disk_of : (ℕ → Option String) → Disk
disk_of write_error = record {
  file_path = "d/pending-commands.json";
  marker_path = "d/command-queue-marker";
  file = none;
  marker = false;
  writes = 0;
  write_error = write_error;
}

abbrev good : Disk
good = disk_of (λ n. none)

abbrev flaky : Disk
flaky = disk_of (λ n. if nat_beq n 1 then some "EIO" else none)

abbrev first : Command
unfolding propose_command
first = propose_command "c1" "t0" reindex "index" end "ops"

saves : (save first good).0 ≡ ok tt
unfolding save first
saves = refl

fails : (persist (first ∷ []) flaky).0 ≡ err (host_error "EIO")
unfolding persist
fails = refl

load-save_lost_example :
    (load (record (save first good).1 { file = none })).0
    ≡ err (command_queue_persistence_lost good.file_path good.marker_path)
load-save_lost_example = load-save_lost good first saves
