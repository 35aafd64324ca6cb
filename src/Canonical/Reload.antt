-- ===== src/Canonical/Reload.antt =====
-- What the canonical store writes to its file is what it reads back.
use db_cluster.Prelude.{
  String, Bool, true, false, not, none, some, List, [], ◌∷◌, ◌++◌, ◌==◌, ◌≡◌, refl, sym, subst, ap,
  ap₂, ◌∙◌, arith, eq_iff, All, all, map,
}
use mathlib.Core.List.{append-nil, append_assoc}
use db_cluster.Json.Reload.{has_plain_fields, reload_fields-plain}
use db_cluster.Canonical.{
  Entity, Snapshot, Bucket, stored, return, versions_of, set_versions, versions_or_none, flatten,
  saved, reload_snapshot, normalise, group, sort_buckets, sort_versions, insert_version,
  load_entities,
}
use db_cluster.Canonical.Order.{IsAscending}

-- no bucket has the key
abbrev pub absent : String → List Bucket → Bool
absent id bs = all (λ (b : Bucket). not (b.key == id)) bs

abbrev pub has_key : String → List Entity → Bool
has_key id es = all (λ (e : Entity). e.id == id) es

abbrev pub has_some : List Entity → Bool
has_some [] = false
has_some (e ∷ es) = true

-- A bucket as the operations leave it: ascending versions of its own id, at least one.
abbrev pub IsBucket : Bucket → Type 0
IsBucket b =
    (has_some b.versions ≡ true) × (has_key b.key b.versions ≡ true) × IsAscending b.versions

abbrev pub IsMap : List Bucket → Type 0
IsMap [] = Unit
IsMap (b ∷ bs) = IsBucket b × (absent b.key bs ≡ true) × IsMap bs

sort_versions_self : (es : List Entity) → IsAscending es → sort_versions es ≡ es
unfolding sort_versions insert_version
sort_versions_self [] a = refl
sort_versions_self (e ∷ []) a = refl
sort_versions_self (e ∷ f ∷ fs) ((lt, b), a) = rw (sort_versions_self (f ∷ fs) a) (ground arith)

sort_buckets_self : (bs : List Bucket) → IsMap bs → sort_buckets bs ≡ bs
unfolding sort_buckets
sort_buckets_self [] m = refl
sort_buckets_self (b ∷ bs) ((some_one, own, a), new, m) =
    ap₂ (λ es rest. record { key = b.key; versions = es } ∷ rest) (sort_versions_self b.versions a)
      (sort_buckets_self bs m)

abbrev snapshots : List Entity → List Snapshot
snapshots es = map (λ (e : Entity). record { entity = e; given_version = some e.version }) es

versions_of-last :
    (done : List Bucket) (id : String) (es : List Entity)
    → absent id done ≡ true
    → versions_of (done ++ record { key = id; versions = es } ∷ []) id ≡ some es
unfolding versions_of
versions_of-last [] id es new = ground (arith, eq_iff id id)
versions_of-last (b ∷ bs) id es new = ground (arith, versions_of-last bs id es)

set_versions-last :
    (done : List Bucket) (id : String) (es fs : List Entity)
    → absent id done ≡ true
    → set_versions (done ++ record { key = id; versions = es } ∷ []) id fs
      ≡ done ++ record { key = id; versions = fs } ∷ []
unfolding set_versions
set_versions-last [] id es fs new = ground (arith, eq_iff id id)
set_versions-last (b ∷ bs) id es fs new = ground (arith, set_versions-last bs id es fs)

set_versions-new :
    (done : List Bucket) (id : String) (es : List Entity)
    → absent id done ≡ true
    → set_versions done id es ≡ done ++ record { key = id; versions = es } ∷ []
unfolding set_versions
set_versions-new [] id es new = refl
set_versions-new (b ∷ bs) id es new = ground (arith, set_versions-new bs id es)

versions_of-new :
    (done : List Bucket) (id : String) → absent id done ≡ true → versions_of done id ≡ none
unfolding versions_of
versions_of-new [] id new = refl
versions_of-new (b ∷ bs) id new = ground (arith, versions_of-new bs id)

abbrev snapshot : Entity → Snapshot
snapshot e = record { entity = e; given_version = some e.version }

abbrev pub bucket : String → List Entity → Bucket
bucket id es = record { key = id; versions = es }

group-next :
    (done : List Bucket) (es : List Entity) (f : Entity) (rest : List Snapshot)
    → absent f.id done ≡ true
    → group (done ++ bucket f.id es ∷ []) (snapshot f ∷ rest)
      ≡ group (done ++ bucket f.id (es ++ f ∷ []) ∷ []) rest
unfolding group normalise versions_or_none
group-next done es f rest new =
    rw (versions_of-last done f.id es new, set_versions-last done f.id es (es ++ f ∷ []) new) refl

group-first :
    (done : List Bucket) (f : Entity) (rest : List Snapshot)
    → absent f.id done ≡ true
    → group done (snapshot f ∷ rest) ≡ group (done ++ bucket f.id (f ∷ []) ∷ []) rest
unfolding group normalise versions_or_none
group-first done f rest new =
    rw (versions_of-new done f.id new, set_versions-new done f.id (f ∷ []) new) refl

-- the rest of a bucket is read behind what was read of it
group-bucket :
    (done : List Bucket) (id : String) (es fs : List Entity) (rest : List Snapshot)
    → absent id done ≡ true
    → has_key id fs ≡ true
    → group (done ++ bucket id es ∷ []) (snapshots fs ++ rest)
      ≡ group (done ++ bucket id (es ++ fs) ∷ []) rest
group-bucket done id es [] rest new own =
    ap (λ xs. group (done ++ bucket id xs ∷ []) rest) (sym (append-nil es))
group-bucket done id es (f ∷ fs) rest new own =
    let same : f.id ≡ id = (eq_iff f.id id).0 (ground arith) in
    subst
      (λ i.
        group (done ++ bucket i es ∷ []) (snapshot f ∷ snapshots fs ++ rest)
        ≡ group (done ++ bucket i (es ++ f ∷ []) ∷ []) (snapshots fs ++ rest))
      same
      (group-next done es f (snapshots fs ++ rest)
        (subst (λ i. absent i done ≡ true) (sym same) new))
    ∙ group-bucket done id (es ++ f ∷ []) fs rest new (ground arith)
    ∙ ap (λ xs. group (done ++ bucket id xs ∷ []) rest) (append_assoc es (f ∷ []) fs)

-- a bucket whose key is new is read whole
group-whole :
    (done : List Bucket) (id : String) (es : List Entity) (rest : List Snapshot)
    → absent id done ≡ true
    → has_some es ≡ true
    → has_key id es ≡ true
    → group done (snapshots es ++ rest) ≡ group (done ++ bucket id es ∷ []) rest
group-whole done id [] rest new some_one own = absurd (cc)
group-whole done id (f ∷ fs) rest new some_one own =
    let same : f.id ≡ id = (eq_iff f.id id).0 (ground arith) in
    subst
      (λ i.
        group done (snapshot f ∷ snapshots fs ++ rest)
        ≡ group (done ++ bucket i (f ∷ []) ∷ []) (snapshots fs ++ rest))
      same
      (group-first done f (snapshots fs ++ rest) (subst (λ i. absent i done ≡ true) (sym same) new))
    ∙ group-bucket done id (f ∷ []) fs rest new (ground arith)

-- the keys of the buckets are new to `done`
abbrev NewTo : List Bucket → List Bucket → Type 0
NewTo done bs = All (λ (b : Bucket). absent b.key done ≡ true) bs

absent-append :
    (id : String) (done : List Bucket) (b : Bucket)
    → absent id done ≡ true
    → (b.key == id) ≡ false
    → absent id (done ++ b ∷ []) ≡ true
absent-append id [] b new other = ground arith
absent-append id (d ∷ ds) b new other = ground (arith, absent-append id ds b)

NewTo-append :
    (done bs : List Bucket) (b : Bucket)
    → NewTo done bs
    → absent b.key bs ≡ true
    → NewTo (done ++ b ∷ []) bs
NewTo-append done [] b news new = tt
NewTo-append done (c ∷ cs) b (h, news) new = (
  absent-append c.key done b h (ground (arith, eq_iff c.key b.key, eq_iff b.key c.key)),
  NewTo-append done cs b news (ground arith),
)

group-flatten :
    (done bs : List Bucket) → IsMap bs → NewTo done bs → group done (flatten bs) ≡ done ++ bs
unfolding group flatten
group-flatten done [] m news = sym (append-nil done)
group-flatten done (b ∷ bs) ((some_one, own, a), new, m) (h, news) =
    group-whole done b.key b.versions (flatten bs) h some_one own
    ∙ group-flatten (done ++ b ∷ []) bs m (NewTo-append done bs b news new)
    ∙ append_assoc done (b ∷ []) bs

NewTo-nil : (bs : List Bucket) → NewTo [] bs
NewTo-nil [] = tt
NewTo-nil (b ∷ bs) = (refl, NewTo-nil bs)

-- the attributes of no version hold a Buffer or a number that is not finite
abbrev pub are_plain : List Entity → Bool
are_plain es = all (λ (e : Entity). has_plain_fields e.attributes) es

abbrev pub is_plain_map : List Bucket → Bool
is_plain_map bs = all (λ (b : Bucket). are_plain b.versions) bs

map-append : {A B : Type 0} (f : A → B) (xs ys : List A) → map f (xs ++ ys) ≡ map f xs ++ map f ys
map-append f [] ys = refl
map-append f (x ∷ xs) ys = ap (λ zs. f x ∷ zs) (map-append f xs ys)

reload_snapshot-plain :
    (e : Entity) → has_plain_fields e.attributes ≡ true → reload_snapshot (snapshot e) ≡ snapshot e
unfolding reload_snapshot
reload_snapshot-plain e h =
    ap (λ a. snapshot (record e { attributes = a })) (reload_fields-plain e.attributes h)

reload-snapshots :
    (es : List Entity) → are_plain es ≡ true → map reload_snapshot (snapshots es) ≡ snapshots es
reload-snapshots [] h = refl
reload-snapshots (e ∷ es) h =
    ap₂ (λ x xs. x ∷ xs) (reload_snapshot-plain e (ground arith))
      (reload-snapshots es (ground arith))

saved-plain : (bs : List Bucket) → is_plain_map bs ≡ true → saved bs ≡ flatten bs
unfolding saved flatten
saved-plain [] h = refl
saved-plain (b ∷ bs) h =
    map-append reload_snapshot (snapshots b.versions) (flatten bs)
    ∙ ap₂ (λ xs ys. xs ++ ys) (reload-snapshots b.versions (ground arith))
        (saved-plain bs (ground arith))

-- A store reads back from its file the map that it wrote: where every bucket holds ascending versions of
-- its own id, at least one, no key stands twice, and no attributes hold a Buffer or a number that is not
-- finite, which JSON does not give back.
pub load_entities-saved :
    (path : String) (bs : List Bucket)
    → IsMap bs
    → is_plain_map bs ≡ true
    → load_entities path (stored (saved bs)) ≡ return bs
unfolding load_entities
load_entities-saved path bs m plain =
    ap (λ xs. load_entities path (stored xs)) (saved-plain bs plain)
    ∙ ap return (ap sort_buckets (group-flatten [] bs m (NewTo-nil bs)) ∙ sort_buckets_self bs m)
