-- ===== src/Kernel/Stored.antt =====
-- `getCommand` and `saveCommand` of src/kernel/cluster-kernel.ts, over the queue on disk or the map in
-- memory, and the operations that read the commands alone.
use db_cluster.Prelude.{String, Option, none, some, List, filter}
use db_cluster.Errors.{Result, ok, err, not_found}
use db_cluster.Commands.{Command, CommandStatus, status_eq}
use db_cluster.Queue.{Disk, get, save, list, get_command, set_command}

-- `commandQueue`, or `memoryCommands` where there is no data directory
pub data CommandStore : Type 0 where
  on_disk : Disk → CommandStore
  in_memory : List Command → CommandStore

abbrev pub at_disk {ℓ} : {A : Type ℓ} → Result A × Disk → Result A × CommandStore
at_disk (r, d) = (r, on_disk d)

-- `getCommand`
unfoldable pub get_stored : String → CommandStore → Result (Option Command) × CommandStore
unfolding get
get_stored id (on_disk d) = at_disk (get id d)
get_stored id (in_memory cs) = (ok (get_command cs id), in_memory cs)

-- `saveCommand`
unfoldable pub save_stored : Command → CommandStore → Result (Unit {0}) × CommandStore
unfolding save set_command
save_stored c (on_disk d) = at_disk (save c d)
save_stored c (in_memory cs) = (ok tt, in_memory (set_command cs c))

abbrev pub present : String → Result (Option Command) × CommandStore → Result Command × CommandStore
present id (err e, s) = (err e, s)
present id (ok none, s) = (err (not_found "command" id), s)
present id (ok (some c), s) = (ok c, s)

-- `inspectCommand`
unfoldable pub inspect_command : String → CommandStore → Result Command × CommandStore
unfolding get_stored
inspect_command id s = present id (get_stored id s)

abbrev list_stored : CommandStore → Result (List Command) × CommandStore
list_stored (on_disk d) = at_disk (list d)
list_stored (in_memory cs) = (ok cs, in_memory cs)

abbrev with_status :
    Option CommandStatus
    → Result (List Command) × CommandStore
    → Result (List Command) × CommandStore
with_status (some status) (ok cs, s) =
    (ok (filter (λ (c : Command). status_eq.beq c.status status) cs), s)
with_status _ r = r

-- `listCommands`
unfoldable pub list_commands :
    Option CommandStatus → CommandStore → Result (List Command) × CommandStore
unfolding list
list_commands status s = with_status status (list_stored s)
