-- ===== src/Canonical/History.antt =====
-- The history of the canonical store: what an operation adds, and that it changes nothing else.
use db_cluster.Prelude.{
  ℕ, String, Option, none, some, List, [], ◌∷◌, ◌++◌, ◌==◌, ◌≡◌, inl, inr, refl, sym, ◌∙◌, arith,
  eq_iff, nat_beq, Bool-cases, if◌then◌else◌,
}
use db_cluster.Canonical.{
  Entity, Snapshot, Bucket, Store, EntityInput, Patch, versions_of, set_versions, versions_or_none,
  list_versions, latest, find_version, get_version, persist, create, first_version, next_version,
  update, update_from, insert_version, sort_versions, normalise, import_known, import_by,
  import_snapshot,
}

versions_of-set_versions :
    (bs : List Bucket) (id : String) (es : List Entity) (j : String)
    → versions_of (set_versions bs id es) j ≡ (if id == j then some es else versions_of bs j)
unfolding versions_of set_versions
versions_of-set_versions [] id es j = refl
versions_of-set_versions (b ∷ bs) id es j =
    ground
      (arith, eq_iff b.key id, eq_iff id j, eq_iff b.key j, versions_of-set_versions bs id es j)

-- the store with other versions of an id, whether or not they were written to the file
abbrev pub with_versions : Store → String → List Entity → Store
with_versions s id es = record s { entities = set_versions s.entities id es }

pub list_versions-with_versions :
    (s : Store) (id : String) (es : List Entity) (j : String)
    → list_versions (with_versions s id es) j ≡ (if id == j then es else list_versions s j)
unfolding list_versions versions_or_none
list_versions-with_versions s id es j = ground (arith, versions_of-set_versions s.entities id es j)

pub list_versions-persist {ℓ} :
    {A : Type ℓ} (result : A) (s : Store) (j : String)
    → list_versions (persist result s).1 j ≡ list_versions s j
unfolding list_versions persist
list_versions-persist result s j = ground arith

pub list_versions-add {ℓ} :
    {A : Type ℓ} (result : A) (s : Store) (id : String) (es : List Entity) (j : String)
    → list_versions (persist result (with_versions s id es)).1 j
      ≡ (if id == j then es else list_versions s j)
list_versions-add result s id es j =
    list_versions-persist result (with_versions s id es) j ∙ list_versions-with_versions s id es j

list_versions-update_from :
    (now id : String) (p : Patch) (s : Store) (current : Entity) (j : String)
    → list_versions (update_from now id p s (some current)).1 j ≡ (
        if id == j
        then list_versions s id ++ next_version now current p ∷ []
        else list_versions s j)
unfolding update_from
list_versions-update_from now id p s current j =
    list_versions-add (next_version now current p) s id
      (list_versions s id ++ next_version now current p ∷ []) j

-- An update of an entity adds one version to its history, behind the others: the patched latest one.
-- The histories of the other entities stay as they are. So it is also where the file cannot be written.
list_versions-update :
    (now id : String) (p : Patch) (s : Store) (current : Entity) (j : String)
    → latest s id ≡ some current
    → list_versions (update now id p s).1 j ≡ (
        if id == j
        then list_versions s id ++ next_version now current p ∷ []
        else list_versions s j)
unfolding update
list_versions-update now id p s current j h = rw h (list_versions-update_from now id p s current j)

pub find_version-append :
    (es fs : List Entity) (v : ℕ) (e : Entity)
    → find_version es v ≡ some e
    → find_version (es ++ fs) v ≡ some e
unfolding find_version
find_version-append [] fs v e h = absurd (cc)
find_version-append (d ∷ ds) fs v e h = ground (arith, find_version-append ds fs v e)

pub find_version-insert_version :
    (x : Entity) (es : List Entity) (v : ℕ)
    → find_version (insert_version x es) v
      ≡ (if nat_beq x.version v then some x else find_version es v)
unfolding find_version insert_version
find_version-insert_version x [] v = refl
find_version-insert_version x (e ∷ es) v = ground (arith, find_version-insert_version x es v)

pub find_version-sort_versions :
    (es : List Entity) (v : ℕ) → find_version (sort_versions es) v ≡ find_version es v
unfolding find_version sort_versions
find_version-sort_versions [] v = refl
find_version-sort_versions (e ∷ es) v =
    ground
      (arith, find_version-insert_version e (sort_versions es) v, find_version-sort_versions es v)

-- every version that `s` holds is in `t` as it was
abbrev pub Keeps : Store → Store → Type 0
Keeps s t =
    (id : String) (v : ℕ) (e : Entity) → get_version s id v ≡ some e → get_version t id v ≡ some e

add-Keeps {ℓ} :
    {A : Type ℓ} (result : A) (s : Store) (id : String) (es : List Entity)
    → ((v : ℕ) (e : Entity)
        → find_version (list_versions s id) v ≡ some e
        → find_version es v ≡ some e)
    → Keeps s (persist result (with_versions s id es)).1
unfolding get_version
add-Keeps result s id es keeps j v e h = elim (Bool-cases (id == j)) [
  | inl same ↦
      rw (list_versions-add result s id es j, same)
        (keeps v e (rw (sym ((eq_iff id j).0 same)) at h))
  | inr other ↦ rw (list_versions-add result s id es j, other) h
]

pub list_versions-absent :
    (s : Store) (id : String) → versions_of s.entities id ≡ none → list_versions s id ≡ []
unfolding list_versions versions_or_none
list_versions-absent s id h = rw h refl

pub list_versions-present :
    (s : Store) (id : String) (es : List Entity)
    → versions_of s.entities id ≡ some es
    → list_versions s id ≡ es
unfolding list_versions versions_or_none
list_versions-present s id es h = rw h refl

new-Keeps {ℓ} :
    {A : Type ℓ} (result : A) (s : Store) (id : String) (es : List Entity)
    → versions_of s.entities id ≡ none
    → Keeps s (persist result (with_versions s id es)).1
unfolding find_version
new-Keeps result s id es new =
    add-Keeps result s id es (λ v e h. absurd (cc (rw (list_versions-absent s id new) at h)))

create-Keeps :
    (id now : String) (input : EntityInput) (s : Store)
    → versions_of s.entities id ≡ none
    → Keeps s (create id now input s).1
unfolding create
create-Keeps id now input s new =
    new-Keeps (first_version id now input) s id (first_version id now input ∷ []) new

update_from-Keeps :
    (now id : String) (p : Patch) (s : Store) (o : Option Entity)
    → Keeps s (update_from now id p s o).1
unfolding update_from
update_from-Keeps now id p s none = λ j v e h. h
update_from-Keeps now id p s (some current) =
    add-Keeps (next_version now current p) s id
      (list_versions s id ++ next_version now current p ∷ [])
      (find_version-append (list_versions s id) (next_version now current p ∷ []))

import_known-Keeps :
    (json : Entity → String) (x : Entity) (es : List Entity) (s : Store) (o : Option Entity)
    → list_versions s x.id ≡ es
    → Keeps s (import_known json x es s o).1
unfolding import_known
import_known-Keeps json x es s (some existing) same = λ j v e h. h
import_known-Keeps json x es s none same =
    add-Keeps x s x.id (sort_versions (es ++ x ∷ [])) (λ v e h.
      find_version-sort_versions (es ++ x ∷ []) v
      ∙ find_version-append es (x ∷ []) v e (rw same at h))

import_by-Keeps :
    (json : Entity → String) (x : Entity) (s : Store) (o : Option (List Entity))
    → versions_of s.entities x.id ≡ o
    → Keeps s (import_by json x s o).1
unfolding import_by
import_by-Keeps json x s none h = new-Keeps x s x.id (x ∷ []) h
import_by-Keeps json x s (some es) h =
    import_known-Keeps json x es s (find_version es x.version) (list_versions-present s x.id es h)

-- One operation. The id of a new entity is random, and so not one of the store's.
pub data Step (json : Entity → String) : Store → Store → Type 0 where
  created :
      (id now : String) (input : EntityInput) (s : Store)
      → versions_of s.entities id ≡ none
      → Step json s (create id now input s).1
  updated : (now id : String) (p : Patch) (s : Store) → Step json s (update now id p s).1
  imported : (x : Snapshot) (s : Store) → Step json s (import_snapshot json x s).1

Step-Keeps : {json : Entity → String} {s t : Store} → Step json s t → Keeps s t
unfolding update import_snapshot
Step-Keeps (created id now input s new) = create-Keeps id now input s new
Step-Keeps (updated now id p s) = update_from-Keeps now id p s (latest s id)
Step-Keeps {json} (imported x s) =
    import_by-Keeps json (normalise x) s (versions_of s.entities (normalise x).id) refl

pub data Reach (json : Entity → String) (s : Store) : Store → Type 0 where
  here : Reach json s s
  after : {t u : Store} → Reach json s t → Step json t u → Reach json s u

-- A version that was once written never changes and never goes: whatever operations follow, also those
-- that throw, `getVersion` gives it as it was.
pub get_version-Reach :
    {json : Entity → String} {s t : Store} (r : Reach json s t) (id : String) (v : ℕ) (e : Entity)
    → get_version s id v ≡ some e
    → get_version t id v ≡ some e
get_version-Reach here id v e h = h
get_version-Reach (after r step) id v e h = Step-Keeps step id v e (get_version-Reach r id v e h)
