-- ===== src/Canonical/Durable.antt =====
-- The file of the canonical store holds the whole map behind every write that returns.
use db_cluster.Prelude.{
  String, true, Option, none, some, [], ◌∷◌, ◌++◌, ◌≡◌, ◌∙◌, refl, sym, ap, eq_iff, arith,
}
use db_cluster.Canonical.{
  Entity, Store, return, stored, EntityInput, Patch, list_versions, latest, persist, create,
  first_version, next_version, update, update_from, saved, load_entities,
}
use db_cluster.Canonical.History.{with_versions, list_versions-add, Reach}
use db_cluster.Canonical.Reload.{IsMap, is_plain_map, load_entities-saved}
use db_cluster.Canonical.WellFormed.{
  set_versions-IsMap, single-IsBucket, entities-persist, next-IsBucket, latest-IsBucket,
  Reach-IsMap,
}

-- loading the store's file gives the map in memory
abbrev pub InSync : Store → Type 0
InSync s = load_entities s.file_path s.file ≡ return s.entities

file-persist {ℓ} :
    {A : Type ℓ} (result a : A) (s : Store)
    → (persist result s).0 ≡ return a
    → (persist result s).1.file ≡ stored (saved s.entities)
unfolding persist
file-persist result a s h = ground arith

persist-return {ℓ} :
    {A : Type ℓ} (result a : A) (s : Store) → (persist result s).0 ≡ return a → a ≡ result
unfolding persist
persist-return result a s h = ground arith

persist-InSync {ℓ} :
    {A : Type ℓ} (result a : A) (s : Store)
    → IsMap s.entities
    → is_plain_map s.entities ≡ true
    → (persist result s).0 ≡ return a
    → InSync (persist result s).1
persist-InSync result a s m plain h =
    rw (file-persist result a s h, entities-persist result s)
      (load_entities-saved (persist result s).1.file_path s.entities m plain)

create-InSync :
    (id now : String) (input : EntityInput) (t : Store) (e : Entity)
    → IsMap t.entities
    → is_plain_map (create id now input t).1.entities ≡ true
    → (create id now input t).0 ≡ return e
    → InSync (create id now input t).1
unfolding create first_version
create-InSync id now input t e m plain h =
    let new = first_version id now input in
    let next = with_versions t id (new ∷ []) in
    persist-InSync new e next (set_versions-IsMap t.entities id (new ∷ []) m (single-IsBucket new))
      (ap is_plain_map (sym (entities-persist new next)) ∙ plain) h

-- What an update leaves that returned `e`: the latest version there was, patched, stands behind the
-- history of the entity, and the file loads to the map in memory.
pub record IsUpdated (now id : String) (p : Patch) (t : Store) (e : Entity) (u : Store)
    : Type 0 where
  pub current : Entity
  pub was_latest : latest t id ≡ some current
  pub is_next : e ≡ next_version now current p
  pub history : list_versions u id ≡ list_versions t id ++ e ∷ []
  pub in_file : InSync u

update_from-IsUpdated :
    (now id : String) (p : Patch) (t : Store) (o : Option Entity) (e : Entity)
    → latest t id ≡ o
    → IsMap t.entities
    → is_plain_map (update_from now id p t o).1.entities ≡ true
    → (update_from now id p t o).0 ≡ return e
    → IsUpdated now id p t e (update_from now id p t o).1
unfolding update_from latest
update_from-IsUpdated now id p t none e l m plain h = absurd (cc)
update_from-IsUpdated now id p t (some current) e l m plain h =
    let new = next_version now current p in
    let versions = list_versions t id ++ new ∷ [] in
    let next = with_versions t id versions in
    record {
      current = current;
      was_latest = l;
      is_next = persist-return new e next h;
      history =
          list_versions-add new t id versions id
          ∙ rw ((eq_iff id id).1 refl)
              (ap (λ x. list_versions t id ++ x ∷ []) (sym (persist-return new e next h)));
      in_file =
          persist-InSync new e next
            (set_versions-IsMap t.entities id versions m (
              next-IsBucket now id p (list_versions t id) current (latest-IsBucket t id current l m)
                l))
            (ap is_plain_map (sym (entities-persist new next)) ∙ plain) h;
    }

-- After any operations on a store whose map is well formed, an update that returns gives the latest version
-- of the entity with the patch, stands last in the entity's history, and is in the file: loading the
-- file gives the map in memory. It takes a map without a Buffer and without a number that is not finite
-- in the attributes, which JSON does not give back.
pub update-Reach-IsUpdated :
    {json : Entity → String} {s t : Store} (r : Reach json s t) (now id : String) (p : Patch)
    (e : Entity)
    → IsMap s.entities
    → is_plain_map (update now id p t).1.entities ≡ true
    → (update now id p t).0 ≡ return e
    → IsUpdated now id p t e (update now id p t).1
unfolding update
update-Reach-IsUpdated {json} {s} {t} r now id p e m plain h =
    update_from-IsUpdated now id p t (latest t id) e refl (Reach-IsMap r m) plain h

-- After any operations on a store whose map is well formed, a create that returns has the new entity in
-- the file: loading the file gives the map in memory, where no attributes in it hold a Buffer or a
-- number that is not finite.
create-Reach-InSync :
    {json : Entity → String} {s t : Store} (r : Reach json s t) (id now : String)
    (input : EntityInput) (e : Entity)
    → IsMap s.entities
    → is_plain_map (create id now input t).1.entities ≡ true
    → (create id now input t).0 ≡ return e
    → InSync (create id now input t).1
create-Reach-InSync {json} {s} {t} r id now input e m plain h =
    create-InSync id now input t e (Reach-IsMap r m) plain h
