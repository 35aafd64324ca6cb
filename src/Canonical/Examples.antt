-- ===== src/Canonical/Examples.antt =====
-- The canonical store on a concrete history.
use db_cluster.Prelude.{arith, List, ◌≤◌, String, none, some, [], ◌∷◌, ◌≡◌, refl}
use db_cluster.Json.{num, field, end}
use db_cluster.Json.Reload.{has_plain_fields}
use db_cluster.Canonical.{
  persist, Bucket, stored, return, saved, load_entities, latest, Entity, Snapshot, Store, missing,
  EntityInput, Patch, versions_of, list_versions, get_version, create, update, import_snapshot,
  update_from,
}
use db_cluster.Canonical.History.{get_version-Reach, created, updated, imported, Reach, here, after}
use db_cluster.Canonical.Order.{latest_highest}
use db_cluster.Canonical.Durable.{IsUpdated, update-Reach-IsUpdated}
use db_cluster.Canonical.Reload.{load_entities-saved}

abbrev json : Entity → String
json e = e.name

abbrev empty_store : Store
empty_store = record {
  entities = [];
  file_path = "entities.json";
  file = missing;
  writes = 0;
  write_error = λ n. none;
}

abbrev ada : EntityInput
ada = record { kind = "person"; name = "Ada"; attributes = field "born" (num "1815") end }

abbrev rename : Patch
rename = record { name = some "Ada Lovelace"; attributes = none }

abbrev first : Entity
first = record {
  id = "e1";
  kind = "person";
  name = "Ada";
  attributes = field "born" (num "1815") end;
  version = 1;
  created_at = "t1";
  updated_at = "t1";
}

abbrev second : Entity
second = record first { name = "Ada Lovelace"; version = 2; updated_at = "t2" }

abbrev store_1 : Store
store_1 = (create "e1" "t1" ada empty_store).1

abbrev store_2 : Store
store_2 = (update "t2" "e1" rename store_1).1

abbrev fifth : Snapshot
fifth = record { entity = record first { version = 5 }; given_version = some 5 }

abbrev history : Reach json store_1 (import_snapshot json fifth store_2).1
history = after (after here (updated "t2" "e1" rename store_1)) (imported fifth store_2)

get_version-Reach_example : get_version (import_snapshot json fifth store_2).1 "e1" 1 ≡ some first
unfolding create get_version
get_version-Reach_example = get_version-Reach history "e1" 1 first refl

latest_highest_example : (get_version store_2 "e1" 2 ≡ some second) × (1 ≤ 2)
unfolding create update update_from versions_of list_versions latest get_version
latest_highest_example =
    latest_highest {json = json}
      (after (after here (created "e1" "t1" ada empty_store refl))
        (updated "t2" "e1" rename store_1))
      "e1" second first 1 (λ id. tt) refl refl

update-Reach-IsUpdated_example : IsUpdated "t2" "e1" rename store_1 second store_2
unfolding create update update_from persist has_plain_fields
update-Reach-IsUpdated_example =
    update-Reach-IsUpdated {json = json} (after here (created "e1" "t1" ada empty_store refl)) "t2"
      "e1" rename second tt refl refl

abbrev buckets : List Bucket
buckets =
    record { key = "e1"; versions = first ∷ second ∷ [] }
    ∷ record { key = "e2"; versions = record first { id = "e2" } ∷ [] }
    ∷ []

load_entities-saved_example :
    load_entities "entities.json" (stored (saved buckets)) ≡ return buckets
unfolding has_plain_fields
load_entities-saved_example =
    load_entities-saved "entities.json" buckets
      ((refl, refl, ((ground arith, tt), (tt, tt))), refl, ((refl, refl, (tt, tt)), refl, tt)) refl
