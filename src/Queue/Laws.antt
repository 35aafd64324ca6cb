-- ===== src/Queue/Laws.antt =====
-- What the command queue promises: the laws of its map, the atomicity of its writes, and the detection
-- of a lost file.
use db_cluster.Prelude.{
  String, Bool, true, false, not, Option, none, some, List, [], ◌∷◌, ◌++◌, ◌==◌, ◌≡◌, ◌⊎◌, inl, inr,
  refl, sym, ap, ap₂, subst, ◌∙◌, arith, eq_iff, all, All, Bool-cases, if◌then◌else◌,
}
use mathlib.Core.List.{append-nil, append_assoc}
use db_cluster.Errors.{is_ok, Result, ok, err, ok-injective, command_queue_persistence_lost}
use db_cluster.Commands.{Command}
use db_cluster.Queue.{
  Content, corrupt, stored, Disk, set_command, map_of, get_command, heal_marker, load, load_file,
  persist, save, get, update_by, read_content,
}

-- A saved command is found under its id, and every other id is as before.
pub get-set_command :
    (cs : List Command) (c : Command) (id : String)
    → get_command (set_command cs c) id ≡ (if c.id == id then some c else get_command cs id)
unfolding set_command
get-set_command [] c id = refl
get-set_command (d ∷ ds) c id =
    ground (arith, eq_iff d.id c.id, eq_iff c.id id, eq_iff d.id id, get-set_command ds c id)

ne_sym : (a b : String) → (a == b) ≡ false → (b == a) ≡ false
ne_sym a b h = ground (arith, eq_iff a b, eq_iff b a)

-- no command of the list has the id
abbrev absent : String → List Command → Bool
absent id cs = all (λ (c : Command). not (c.id == id)) cs

-- the ids are distinct
abbrev pub IsMap : List Command → Type 0
IsMap [] = Unit
IsMap (c ∷ cs) = (absent c.id cs ≡ true) × IsMap cs

absent-set_command :
    (id : String) (cs : List Command) (c : Command)
    → (c.id == id) ≡ false
    → absent id cs ≡ true
    → absent id (set_command cs c) ≡ true
unfolding set_command
absent-set_command id [] c h k = ground arith
absent-set_command id (d ∷ ds) c h k = ground (arith, absent-set_command id ds c h)

set_command-IsMap : (cs : List Command) (c : Command) → IsMap cs → IsMap (set_command cs c)
unfolding set_command
set_command-IsMap [] c h = (refl, tt)
set_command-IsMap (d ∷ ds) c (new, rest) = elim (Bool-cases (d.id == c.id)) [
  | inl e ↦ rw e (subst (λ id. absent id ds ≡ true) ((eq_iff d.id c.id).0 e) new, rest)
  | inr e ↦
      rw e (absent-set_command d.id ds c (ne_sym d.id c.id e) new, set_command-IsMap ds c rest)
]

map_of-IsMap : (done cs : List Command) → IsMap done → IsMap (map_of done cs)
unfolding map_of
map_of-IsMap done [] h = h
map_of-IsMap done (c ∷ cs) h = map_of-IsMap (set_command done c) cs (set_command-IsMap done c h)

set_command-absent :
    (ds : List Command) (c : Command) → absent c.id ds ≡ true → set_command ds c ≡ ds ++ c ∷ []
unfolding set_command
set_command-absent [] c h = refl
set_command-absent (d ∷ ds) c h = ground (arith, set_command-absent ds c)

-- the commands are new to `done`
abbrev NewTo : List Command → List Command → Type 0
NewTo done cs = All (λ (c : Command). absent c.id done ≡ true) cs

absent-append :
    (id : String) (ds : List Command) (c : Command)
    → absent id ds ≡ true
    → (c.id == id) ≡ false
    → absent id (ds ++ c ∷ []) ≡ true
absent-append id [] c h k = ground arith
absent-append id (d ∷ ds) c h k = ground (arith, absent-append id ds c)

NewTo-append :
    (done cs : List Command) (c : Command)
    → NewTo done cs
    → absent c.id cs ≡ true
    → NewTo (done ++ c ∷ []) cs
NewTo-append done [] c h k = tt
NewTo-append done (x ∷ xs) c (h, hs) k = (
  absent-append x.id done c h (ne_sym x.id c.id (ground arith)),
  NewTo-append done xs c hs (ground arith),
)

-- reading back a list of distinct ids changes nothing
map_of-append : (done cs : List Command) → IsMap cs → NewTo done cs → map_of done cs ≡ done ++ cs
unfolding map_of
map_of-append done [] m h = sym (append-nil done)
map_of-append done (c ∷ cs) (new, m) (h, hs) = rw (set_command-absent done c h) (
    map_of-append (done ++ c ∷ []) cs m (NewTo-append done cs c hs new)
    ∙ append_assoc done (c ∷ []) cs)

NewTo-nil : (cs : List Command) → NewTo [] cs
NewTo-nil [] = tt
NewTo-nil (c ∷ cs) = (refl, NewTo-nil cs)

map_of_self : (cs : List Command) → IsMap cs → map_of [] cs ≡ cs
map_of_self cs m = map_of-append [] cs m (NewTo-nil cs)

read_content-IsMap :
    (d : Disk) (content : Content) (cs : List Command) → read_content d content ≡ ok cs → IsMap cs
read_content-IsMap d (corrupt text) cs h = cc
read_content-IsMap d (stored xs) cs h = subst IsMap (ok-injective h) (map_of-IsMap [] xs tt)

load_file-IsMap :
    (d : Disk) (file : Option Content) (cs : List Command) → (load_file d file).0 ≡ ok cs → IsMap cs
unfolding load_file
load_file-IsMap d none cs h = elim (Bool-cases d.marker) [
  | inl m ↦ absurd (cc (rw m at h))
  | inr m ↦ subst IsMap (ok-injective (rw m at h)) tt
]
load_file-IsMap d (some content) cs h = read_content-IsMap (heal_marker d) content cs h

load-IsMap : (d : Disk) (cs : List Command) → (load d).0 ≡ ok cs → IsMap cs
unfolding load
load-IsMap d cs h = load_file-IsMap d d.file cs h

load-stored :
    (d : Disk) (cs : List Command) → d.file ≡ some (stored cs) → IsMap cs → (load d).0 ≡ ok cs
unfolding load
load-stored d cs e m = rw e (ap ok (map_of_self cs m))

-- the disk `e` has the paths of `d`
abbrev SamePaths : Disk → Disk → Type 0
SamePaths e d = (e.file_path ≡ d.file_path) × (e.marker_path ≡ d.marker_path)

persist-ok :
    (cs : List Command) (d : Disk)
    → (persist cs d).0 ≡ ok tt
    → ((persist cs d).1.file ≡ some (stored cs))
      × ((persist cs d).1.marker ≡ true)
      × SamePaths (persist cs d).1 d
unfolding persist
persist-ok cs d h = (ground arith, ground arith, (ground arith, ground arith))

get-read :
    (d : Disk) (id : String) {cs : List Command}
    → (load d).0 ≡ ok cs
    → (get id d).0 ≡ ok (get_command cs id)
unfolding get
get-read d id h = ground arith

-- After a save that returns, the saved command is read under its id, and under every other id what the
-- queue held before.
get-save :
    (d e : Disk) (cs : List Command) (c : Command) (id : String)
    → load d ≡ (ok cs, e)
    → (save c d).0 ≡ ok tt
    → (get id (save c d).1).0 ≡ ok (if c.id == id then some c else get_command cs id)
unfolding save
get-save d e cs c id loaded h =
    let xs = set_command cs c in
    let map =
      set_command-IsMap cs c
        (load-IsMap d cs (ap (λ (r : Result (List Command) × Disk). r.0) loaded)) in
    let file = persist-ok xs e (rw loaded at h) in
    rw loaded (
      get-read (persist xs e).1 id (load-stored (persist xs e).1 xs file.0 map)
      ∙ ap ok (get-set_command cs c id))

-- Whatever write fails, a persist leaves the queue file as it was or holding the new commands whole; it
-- holds them when it returns, and then the marker is set.
persist_atomic :
    (cs : List Command) (d : Disk)
    → (((persist cs d).0 ≡ ok tt)
        × ((persist cs d).1.file ≡ some (stored cs))
        × ((persist cs d).1.marker ≡ true))
      ⊎ ((is_ok (persist cs d).0 ≡ false)
          × (((persist cs d).1.file ≡ d.file) ⊎ ((persist cs d).1.file ≡ some (stored cs))))
unfolding persist
persist_atomic cs d = ground arith

load_file-SamePaths : (d : Disk) (file : Option Content) → SamePaths (load_file d file).1 d
unfolding load_file
load_file-SamePaths d none = ground arith
load_file-SamePaths d (some content) = ground arith

load-SamePaths : (d : Disk) → SamePaths (load d).1 d
unfolding load
load-SamePaths d = load_file-SamePaths d d.file

update_by-marker :
    (f : List Command → List Command) (r : Result (List Command) × Disk)
    → (update_by f r).0 ≡ ok tt
    → ((update_by f r).1.marker ≡ true) × SamePaths (update_by f r).1 r.1
update_by-marker f (err e, d) h = absurd (cc)
update_by-marker f (ok cs, d) h =
    let (file, marker, paths) = persist-ok (f cs) d h in (marker, paths)

load-lost :
    (d : Disk)
    → d.marker ≡ true
    → (load (record d { file = none })).0
      ≡ err (command_queue_persistence_lost d.file_path d.marker_path)
unfolding load
load-lost d m = rw m

-- Once a save has returned, a queue file that goes missing is reported: loading fails with the typed
-- error, and never takes it for an empty queue.
pub load-save_lost :
    (d : Disk) (c : Command)
    → (save c d).0 ≡ ok tt
    → (load (record (save c d).1 { file = none })).0
      ≡ err (command_queue_persistence_lost d.file_path d.marker_path)
unfolding save
load-save_lost d c h =
    let (marker, (file_path, marker_path)) = update_by-marker (λ cs. set_command cs c) (load d) h in
    let (p, q) = load-SamePaths d in
    load-lost (save c d).1 marker
    ∙ ap₂ (λ x y. err (command_queue_persistence_lost x y)) (file_path ∙ p) (marker_path ∙ q)
