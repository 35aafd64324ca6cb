-- ===== src/Canonical/Order.antt =====
-- The order of the versions in the canonical store: ascending, the latest one last.
use db_cluster.Prelude.{
  ℕ, ◌≤◌, ◌<◌, String, false, Option, none, some, List, [], ◌∷◌, ◌++◌, ◌==◌, ◌≡◌, inl, inr, refl,
  sym, subst, ◌∙◌, arith, nat_beq, leb, All, get_last?, Bool-cases,
}
use db_cluster.Canonical.{
  Entity, Store, EntityInput, Patch, versions_of, list_versions, latest, find_version, get_version,
  persist, create, first_version, next_version, update, update_from, insert_version, sort_versions,
  normalise, import_known, import_by, import_snapshot,
}
use db_cluster.Canonical.History.{
  with_versions, list_versions-add, list_versions-present, find_version-sort_versions, Step,
  created, updated, imported, Reach, here, after,
}

-- `e` comes before every version of the list
abbrev Below : Entity → List Entity → Type 0
Below e es = All (λ (f : Entity). e.version < f.version) es

-- each version is less than those behind it
abbrev pub IsAscending : List Entity → Type 0
IsAscending [] = Unit
IsAscending (e ∷ es) = Below e es × IsAscending es

-- the history of every id ascends
abbrev pub IsOrdered : Store → Type 0
IsOrdered s = (id : String) → IsAscending (list_versions s id)

Below-append :
    (e : Entity) (es : List Entity) (x : Entity)
    → Below e es
    → e.version < x.version
    → Below e (es ++ x ∷ [])
Below-append e [] x h lt = (lt, tt)
Below-append e (f ∷ fs) x (h, hs) lt = (h, Below-append e fs x hs lt)

Below-last :
    (e : Entity) (es : List Entity) (l : Entity)
    → Below e es
    → get_last? es ≡ some l
    → e.version < l.version
Below-last e [] l h last = absurd (cc)
Below-last e (f ∷ []) l (h, hs) last = ground arith
Below-last e (f ∷ g ∷ fs) l (h, hs) last = Below-last e (g ∷ fs) l hs last

-- what is put behind the last version, and above it, keeps the order
pub IsAscending-append :
    (es : List Entity) (l x : Entity)
    → IsAscending es
    → get_last? es ≡ some l
    → l.version < x.version
    → IsAscending (es ++ x ∷ [])
IsAscending-append [] l x h last lt = absurd (cc)
IsAscending-append (e ∷ []) l x h last lt = ((ground arith, tt), (tt, tt))
IsAscending-append (e ∷ f ∷ fs) l x (h, hs) last lt =
    let m : e.version < l.version = Below-last e (f ∷ fs) l h last in
    (Below-append e (f ∷ fs) x h (ground arith), IsAscending-append (f ∷ fs) l x hs last lt)

Below-insert_version :
    (e x : Entity) (es : List Entity)
    → Below e es
    → e.version < x.version
    → Below e (insert_version x es)
unfolding insert_version
Below-insert_version e x [] h lt = (lt, tt)
Below-insert_version e x (f ∷ fs) (h, hs) lt = elim (Bool-cases (leb x.version f.version)) [
  | inl le ↦ rw le (lt, (h, hs))
  | inr gt ↦ rw gt (h, Below-insert_version e x fs hs lt)
]

Below-trans : (e f : Entity) (es : List Entity) → e.version < f.version → Below f es → Below e es
Below-trans e f [] lt h = tt
Below-trans e f (g ∷ gs) lt (h, hs) = (ground arith, Below-trans e f gs lt hs)

insert_version-IsAscending :
    (x : Entity) (es : List Entity)
    → find_version es x.version ≡ none
    → IsAscending es
    → IsAscending (insert_version x es)
unfolding insert_version find_version
insert_version-IsAscending x [] h a = (tt, tt)
insert_version-IsAscending x (f ∷ fs) h (b, a) = elim (Bool-cases (leb x.version f.version)) [
  | inl le ↦
      let lt : x.version < f.version = ground arith in rw le ((lt, Below-trans x f fs lt b), (b, a))
  | inr gt ↦ rw gt (
    Below-insert_version f x fs b (ground arith),
    insert_version-IsAscending x fs (ground arith) a,
  )
]

find_version-above :
    (e : Entity) (es : List Entity) (x : Entity)
    → Below e es
    → nat_beq x.version e.version ≡ false
    → find_version (es ++ x ∷ []) e.version ≡ none
unfolding find_version
find_version-above e [] x b h = ground arith
find_version-above e (f ∷ fs) x (b, bs) h = ground (arith, find_version-above e fs x bs h)

pub sort_versions-IsAscending :
    (es : List Entity) (x : Entity)
    → find_version es x.version ≡ none
    → IsAscending es
    → IsAscending (sort_versions (es ++ x ∷ []))
unfolding find_version sort_versions
sort_versions-IsAscending [] x h a = insert_version-IsAscending x [] refl tt
sort_versions-IsAscending (e ∷ es) x h (b, a) =
    insert_version-IsAscending e (sort_versions (es ++ x ∷ []))
      (find_version-sort_versions (es ++ x ∷ []) e.version
        ∙ find_version-above e es x b (ground arith))
      (sort_versions-IsAscending es x (ground arith) a)

add-IsOrdered {ℓ} :
    {A : Type ℓ} (result : A) (s : Store) (id : String) (es : List Entity)
    → IsOrdered s
    → IsAscending es
    → IsOrdered (persist result (with_versions s id es)).1
add-IsOrdered result s id es h a j =
    subst IsAscending (sym (list_versions-add result s id es j))
      (elim (Bool-cases (id == j)) [ inl e ↦ rw e a | inr e ↦ rw e (h j) ])

next-IsAscending :
    (now id : String) (p : Patch) (s : Store) (current : Entity)
    → latest s id ≡ some current
    → IsOrdered s
    → IsAscending (list_versions s id ++ next_version now current p ∷ [])
unfolding latest next_version
next-IsAscending now id p s current e h =
    IsAscending-append (list_versions s id) current (next_version now current p) (h id) e
      (ground arith)

update_from-IsOrdered :
    (now id : String) (p : Patch) (s : Store) (o : Option Entity)
    → latest s id ≡ o
    → IsOrdered s
    → IsOrdered (update_from now id p s o).1
unfolding update_from
update_from-IsOrdered now id p s none e h = h
update_from-IsOrdered now id p s (some current) e h =
    add-IsOrdered (next_version now current p) s id
      (list_versions s id ++ next_version now current p ∷ []) h
      (next-IsAscending now id p s current e h)

import_known-IsOrdered :
    (json : Entity → String) (x : Entity) (es : List Entity) (s : Store) (o : Option Entity)
    → list_versions s x.id ≡ es
    → find_version es x.version ≡ o
    → IsOrdered s
    → IsOrdered (import_known json x es s o).1
unfolding import_known
import_known-IsOrdered json x es s (some existing) same e h = h
import_known-IsOrdered json x es s none same e h =
    add-IsOrdered x s x.id (sort_versions (es ++ x ∷ [])) h
      (sort_versions-IsAscending es x e (subst IsAscending same (h x.id)))

import_by-IsOrdered :
    (json : Entity → String) (x : Entity) (s : Store) (o : Option (List Entity))
    → versions_of s.entities x.id ≡ o
    → IsOrdered s
    → IsOrdered (import_by json x s o).1
unfolding import_by
import_by-IsOrdered json x s none e h = add-IsOrdered x s x.id (x ∷ []) h (tt, tt)
import_by-IsOrdered json x s (some es) e h =
    import_known-IsOrdered json x es s (find_version es x.version)
      (list_versions-present s x.id es e) refl h

create-IsOrdered :
    (id now : String) (input : EntityInput) (s : Store)
    → IsOrdered s
    → IsOrdered (create id now input s).1
unfolding create
create-IsOrdered id now input s h =
    add-IsOrdered (first_version id now input) s id (first_version id now input ∷ []) h (tt, tt)

Step-IsOrdered : {json : Entity → String} {s t : Store} → Step json s t → IsOrdered s → IsOrdered t
unfolding update import_snapshot
Step-IsOrdered (created id now input s new) h = create-IsOrdered id now input s h
Step-IsOrdered (updated now id p s) h = update_from-IsOrdered now id p s (latest s id) refl h
Step-IsOrdered {json} (imported x s) h =
    import_by-IsOrdered json (normalise x) s (versions_of s.entities (normalise x).id) refl h

Reach-IsOrdered :
    {json : Entity → String} {s t : Store} → Reach json s t → IsOrdered s → IsOrdered t
Reach-IsOrdered here h = h
Reach-IsOrdered (after r step) h = Step-IsOrdered step (Reach-IsOrdered r h)

find_version-last :
    (es : List Entity) (l : Entity)
    → IsAscending es
    → get_last? es ≡ some l
    → find_version es l.version ≡ some l
unfolding find_version
find_version-last [] l a last = absurd (cc)
find_version-last (e ∷ []) l a last = ground arith
find_version-last (e ∷ f ∷ fs) l (b, a) last =
    let lt : e.version < l.version = Below-last e (f ∷ fs) l b last in
    ground (arith, find_version-last (f ∷ fs) l a last)

find_version-bound :
    (es : List Entity) (l : Entity) (v : ℕ) (e : Entity)
    → IsAscending es
    → get_last? es ≡ some l
    → find_version es v ≡ some e
    → v ≤ l.version
unfolding find_version
find_version-bound [] l v e a last h = absurd (cc)
find_version-bound (d ∷ []) l v e a last h = ground arith
find_version-bound (d ∷ f ∷ fs) l v e (b, a) last h =
    let lt : d.version < l.version = Below-last d (f ∷ fs) l b last in
    ground (arith, find_version-bound (f ∷ fs) l v e a last)

-- After any operations on a store whose histories ascend, `get` gives the version with the highest
-- number: `getVersion` gives the same at that number, and no version that it gives has a higher one.
pub latest_highest :
    {json : Entity → String} {s t : Store} (r : Reach json s t) (id : String) (e f : Entity) (v : ℕ)
    → IsOrdered s
    → latest t id ≡ some e
    → get_version t id v ≡ some f
    → (get_version t id e.version ≡ some e) × (v ≤ e.version)
unfolding latest get_version
latest_highest {json} {s} {t} r id e f v h last found =
    let a = Reach-IsOrdered r h id in
    (
      find_version-last (list_versions t id) e a last,
      find_version-bound (list_versions t id) e v f a last found,
    )
