-- ===== src/Queue.antt =====
-- src/kernel/command-queue.ts: the file of pending commands and its marker. A write of the disk may
-- fail; the sweep of stale temporary files at construction touches neither of the two.
pub mod Laws
mod Examples
use db_cluster.Prelude.{
  ℕ, zero, suc, ◌+◌, String, Bool, true, false, not, ◌&&◌, Option, none, some, List, [], ◌∷◌, ◌==◌,
  filter, find, if◌then◌else◌,
}
use db_cluster.Errors.{
  Error, Result, ok, err, command_queue_corrupt, command_queue_persistence_lost, host_error,
}
use db_cluster.Commands.{Command, CommandStatus, status_eq}

-- What `readFileSync` and `JSON.parse` make of the queue file: the array of commands, or the message
-- of the error.
pub data Content : Type 0 where
  corrupt : String → Content
  stored : List Command → Content

-- The files, their paths, and for each write to come the message with which it fails, if it does.
pub record Disk : Type 0 where
  pub file_path : String
  pub marker_path : String
  pub file : Option Content
  pub marker : Bool
  pub writes : ℕ
  pub write_error : ℕ → Option String

-- `Map.set`: an id that is there keeps its place
unfoldable pub set_command : List Command → Command → List Command
set_command [] c = c ∷ []
set_command (d ∷ ds) c = let rest = set_command ds c in if d.id == c.id then c ∷ ds else d ∷ rest

-- `new Map(arr.map((c) => [c.id, c]))`
unfoldable pub map_of : List Command → List Command → List Command
unfolding set_command
map_of done [] = done
map_of done (c ∷ cs) = map_of (set_command done c) cs

-- `Map.get`
abbrev pub get_command : List Command → String → Option Command
get_command cs id = find (λ (c : Command). c.id == id) cs

-- one write: the counter moves on, and `done` happens unless the write fails
abbrev attempt {ℓ} : {A : Type ℓ} → Disk → (Disk → A) → (String → Disk → A) → A
attempt d done fail =
    let d' = record d { writes = d.writes + 1 } in
    elim (d.write_error d.writes) [ none ↦ done d' | some text ↦ fail text d' ]

-- `if (queueExists && !markerExists)`: the marker is written again, best effort
unfoldable pub heal_marker : Disk → Disk
heal_marker d = if d.marker then d else attempt d (λ e. record e { marker = true }) (λ text e. e)

abbrev read_content : Disk → Content → Result (List Command)
read_content d (corrupt text) = err (command_queue_corrupt d.file_path text)
read_content d (stored cs) = ok (map_of [] cs)

-- `load`, by what stands at the path of the queue file
unfoldable pub load_file : Disk → Option Content → Result (List Command) × Disk
unfolding heal_marker map_of
load_file d none =
    if d.marker
    then (err (command_queue_persistence_lost d.file_path d.marker_path), d)
    else (ok [], d)
load_file d (some content) = let e = heal_marker d in (read_content e content, e)

-- `load`
unfoldable pub load : Disk → Result (List Command) × Disk
unfolding load_file
load d = load_file d d.file

-- the end of `persist`: the marker of the first successful one
abbrev mark_persisted : Disk → Result (Unit {0}) × Disk
mark_persisted d =
    if d.marker
    then (ok tt, d)
    else attempt d (λ e. (ok tt, record e { marker = true })) (λ text e. (err (host_error text), e))

-- `persist`: the temporary file is written and then renamed over the queue file
unfoldable pub persist : List Command → Disk → Result (Unit {0}) × Disk
persist cs d =
    attempt d
      (λ e.
        attempt e (λ f. mark_persisted (record f { file = some (stored cs) }))
          (λ text f. (err (host_error text), f)))
      (λ text e. (err (host_error text), e))

-- a change of the loaded map, persisted
abbrev update_by :
    (List Command → List Command) → Result (List Command) × Disk → Result (Unit {0}) × Disk
update_by change (ok cs, d) = persist (change cs) d
update_by change (err e, d) = (err e, d)

-- `save`
unfoldable pub save : Command → Disk → Result (Unit {0}) × Disk
unfolding load set_command persist
save c d = update_by (λ cs. set_command cs c) (load d)

abbrev without : String → List Command → List Command
without id cs = filter (λ (c : Command). not (c.id == id)) cs

-- `remove`
unfoldable pub remove : String → Disk → Result (Unit {0}) × Disk
unfolding load persist
remove id d = update_by (without id) (load d)

abbrev read_by {ℓ} :
    {A : Type ℓ} → (List Command → A) → Result (List Command) × Disk → Result A × Disk
read_by f (ok cs, d) = (ok (f cs), d)
read_by f (err e, d) = (err e, d)

-- `get`
unfoldable pub get : String → Disk → Result (Option Command) × Disk
unfolding load
get id d = read_by (λ cs. get_command cs id) (load d)

-- `list`
unfoldable pub list : Disk → Result (List Command) × Disk
unfolding load
list d = read_by (λ cs. cs) (load d)

-- `listByStatus`
unfoldable pub list_by_status : CommandStatus → Disk → Result (List Command) × Disk
unfolding load
list_by_status status d = read_by (filter (λ (c : Command). status_eq.beq c.status status)) (load d)
