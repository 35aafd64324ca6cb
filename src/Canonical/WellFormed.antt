-- ===== src/Canonical/WellFormed.antt =====
-- The operations of the canonical store keep its map well formed.
use db_cluster.Prelude.{
  String, true, false, Option, none, some, List, [], ◌∷◌, ◌++◌, ◌==◌, ◌≡◌, inl, inr, refl, sym,
  subst, arith, eq_iff, get_last?, Bool-cases, Option-cases,
}
use mathlib.Core.Option.{some-injective}
use db_cluster.Canonical.{
  Entity, Bucket, Store, EntityInput, Patch, versions_of, set_versions, list_versions, latest,
  find_version, persist, create, first_version, next_version, update, update_from, insert_version,
  sort_versions, normalise, import_known, import_by, import_snapshot,
}
use db_cluster.Canonical.History.{
  with_versions, list_versions-absent, list_versions-present, Step, created, updated, imported,
  Reach, here, after,
}
use db_cluster.Canonical.Order.{IsAscending-append, sort_versions-IsAscending}
use db_cluster.Canonical.Reload.{absent, has_key, has_some, bucket, IsBucket, IsMap}

versions_of-IsBucket :
    (bs : List Bucket) (id : String) (es : List Entity)
    → IsMap bs
    → versions_of bs id ≡ some es
    → IsBucket (bucket id es)
unfolding versions_of
versions_of-IsBucket [] id es m h = absurd (cc)
versions_of-IsBucket (b ∷ bs) id es (one, new, m) h = elim (Bool-cases (b.key == id)) [
  | inl e ↦
      subst (λ xs. IsBucket (bucket id xs)) (some-injective b.versions es (rw e at h))
        (subst (λ i. IsBucket (bucket i b.versions)) ((eq_iff b.key id).0 e) one)
  | inr e ↦ versions_of-IsBucket bs id es m (rw e at h)
]

absent-set_versions :
    (j : String) (bs : List Bucket) (id : String) (es : List Entity)
    → (id == j) ≡ false
    → absent j bs ≡ true
    → absent j (set_versions bs id es) ≡ true
unfolding set_versions
absent-set_versions j [] id es other h = ground arith
absent-set_versions j (b ∷ bs) id es other h = ground (arith, absent-set_versions j bs id es)

pub set_versions-IsMap :
    (bs : List Bucket) (id : String) (es : List Entity)
    → IsMap bs
    → IsBucket (bucket id es)
    → IsMap (set_versions bs id es)
unfolding set_versions
set_versions-IsMap [] id es m one = (one, refl, tt)
set_versions-IsMap (b ∷ bs) id es (old, new, m) one = elim (Bool-cases (b.key == id)) [
  | inl e ↦ rw e (subst (λ i. IsBucket (bucket i es)) (sym ((eq_iff b.key id).0 e)) one, new, m)
  | inr e ↦ rw e (
    old,
    absent-set_versions b.key bs id es (ground (arith, eq_iff id b.key, eq_iff b.key id)) new,
    set_versions-IsMap bs id es m one,
  )
]

pub entities-persist {ℓ} :
    {A : Type ℓ} (result : A) (s : Store) → (persist result s).1.entities ≡ s.entities
unfolding persist
entities-persist result s = ground arith

add-IsMap {ℓ} :
    {A : Type ℓ} (result : A) (s : Store) (id : String) (es : List Entity)
    → IsMap s.entities
    → IsBucket (bucket id es)
    → IsMap (persist result (with_versions s id es)).1.entities
add-IsMap result s id es m one =
    subst IsMap (sym (entities-persist result (with_versions s id es)))
      (set_versions-IsMap s.entities id es m one)

has_key-append :
    (id : String) (es : List Entity) (x : Entity)
    → has_key id es ≡ true
    → (x.id == id) ≡ true
    → has_key id (es ++ x ∷ []) ≡ true
has_key-append id [] x h k = ground arith
has_key-append id (e ∷ es) x h k = ground (arith, has_key-append id es x)

has_key-last :
    (id : String) (es : List Entity) (l : Entity)
    → has_key id es ≡ true
    → get_last? es ≡ some l
    → (l.id == id) ≡ true
has_key-last id [] l h last = absurd (cc)
has_key-last id (e ∷ []) l h last = ground arith
has_key-last id (e ∷ f ∷ fs) l h last = has_key-last id (f ∷ fs) l (ground arith) last

has_key-insert_version :
    (id : String) (x : Entity) (es : List Entity)
    → (x.id == id) ≡ true
    → has_key id es ≡ true
    → has_key id (insert_version x es) ≡ true
unfolding insert_version
has_key-insert_version id x [] k h = ground arith
has_key-insert_version id x (e ∷ es) k h = ground (arith, has_key-insert_version id x es)

has_key-sort_versions :
    (id : String) (es : List Entity) → has_key id es ≡ true → has_key id (sort_versions es) ≡ true
unfolding sort_versions
has_key-sort_versions id [] h = refl
has_key-sort_versions id (e ∷ es) h =
    has_key-insert_version id e (sort_versions es) (ground arith)
      (has_key-sort_versions id es (ground arith))

has_some-append : (es : List Entity) (x : Entity) → has_some (es ++ x ∷ []) ≡ true
has_some-append [] x = refl
has_some-append (e ∷ es) x = refl

has_some-insert_version : (x : Entity) (es : List Entity) → has_some (insert_version x es) ≡ true
unfolding insert_version
has_some-insert_version x [] = refl
has_some-insert_version x (e ∷ es) = ground arith

has_some-sort_versions :
    (es : List Entity) (x : Entity) → has_some (sort_versions (es ++ x ∷ [])) ≡ true
unfolding sort_versions
has_some-sort_versions [] x = has_some-insert_version x []
has_some-sort_versions (e ∷ es) x = has_some-insert_version e (sort_versions (es ++ x ∷ []))

pub next-IsBucket :
    (now id : String) (p : Patch) (es : List Entity) (current : Entity)
    → IsBucket (bucket id es)
    → get_last? es ≡ some current
    → IsBucket (bucket id (es ++ next_version now current p ∷ []))
unfolding next_version
next-IsBucket now id p es current (some_one, own, a) last = (
  has_some-append es (next_version now current p),
  has_key-append id es (next_version now current p) own (has_key-last id es current own last),
  IsAscending-append es current (next_version now current p) a last (ground arith),
)

pub latest-IsBucket :
    (s : Store) (id : String) (current : Entity)
    → latest s id ≡ some current
    → IsMap s.entities
    → IsBucket (bucket id (list_versions s id))
unfolding latest
latest-IsBucket s id current h m = elim (Option-cases (versions_of s.entities id)) [
  | inl none_yet ↦ absurd (cc (rw (list_versions-absent s id none_yet) at h))
  | inr (es, e) ↦
      subst (λ xs. IsBucket (bucket id xs)) (sym (list_versions-present s id es e))
        (versions_of-IsBucket s.entities id es m e)
]

update_from-IsMap :
    (now id : String) (p : Patch) (s : Store) (o : Option Entity)
    → latest s id ≡ o
    → IsMap s.entities
    → IsMap (update_from now id p s o).1.entities
unfolding update_from latest
update_from-IsMap now id p s none e m = m
update_from-IsMap now id p s (some current) e m =
    add-IsMap (next_version now current p) s id
      (list_versions s id ++ next_version now current p ∷ []) m
      (next-IsBucket now id p (list_versions s id) current (latest-IsBucket s id current e m) e)

pub single-IsBucket : (e : Entity) → IsBucket (bucket e.id (e ∷ []))
single-IsBucket e = (refl, ground (arith, eq_iff e.id e.id), (tt, tt))

create-IsMap :
    (id now : String) (input : EntityInput) (s : Store)
    → IsMap s.entities
    → IsMap (create id now input s).1.entities
unfolding create first_version
create-IsMap id now input s m =
    add-IsMap (first_version id now input) s id (first_version id now input ∷ []) m
      (single-IsBucket (first_version id now input))

import_known-IsMap :
    (json : Entity → String) (x : Entity) (es : List Entity) (s : Store) (o : Option Entity)
    → IsBucket (bucket x.id es)
    → find_version es x.version ≡ o
    → IsMap s.entities
    → IsMap (import_known json x es s o).1.entities
unfolding import_known
import_known-IsMap json x es s (some existing) one e m = m
import_known-IsMap json x es s none (some_one, own, a) e m =
    add-IsMap x s x.id (sort_versions (es ++ x ∷ [])) m (
      has_some-sort_versions es x,
      has_key-sort_versions x.id (es ++ x ∷ [])
          (has_key-append x.id es x own ((eq_iff x.id x.id).1 refl)),
      sort_versions-IsAscending es x e a,
    )

import_by-IsMap :
    (json : Entity → String) (x : Entity) (s : Store) (o : Option (List Entity))
    → versions_of s.entities x.id ≡ o
    → IsMap s.entities
    → IsMap (import_by json x s o).1.entities
unfolding import_by
import_by-IsMap json x s none e m = add-IsMap x s x.id (x ∷ []) m (single-IsBucket x)
import_by-IsMap json x s (some es) e m =
    import_known-IsMap json x es s (find_version es x.version)
      (versions_of-IsBucket s.entities x.id es m e) refl m

Step-IsMap :
    {json : Entity → String} {s t : Store} → Step json s t → IsMap s.entities → IsMap t.entities
unfolding update import_snapshot
Step-IsMap (created id now input s new) m = create-IsMap id now input s m
Step-IsMap (updated now id p s) m = update_from-IsMap now id p s (latest s id) refl m
Step-IsMap {json} (imported x s) m =
    import_by-IsMap json (normalise x) s (versions_of s.entities (normalise x).id) refl m

pub Reach-IsMap :
    {json : Entity → String} {s t : Store} → Reach json s t → IsMap s.entities → IsMap t.entities
Reach-IsMap here m = m
Reach-IsMap (after r step) m = Step-IsMap step (Reach-IsMap r m)
