-- ===== src/Integrity/Order.antt =====
-- The hashed text does not depend on the order in which the keys of an object were set.
use db_cluster.Prelude.{
  ℕ, String, Bool, true, false, List, [], ◌∷◌, ◌≡◌, inl, inr, refl, ap, ap₂, ◌∙◌, arith, map,
  Bool-cases, nat_beq, if◌then◌else◌, ◌==◌, eq_iff, sym, subst,
}
use db_cluster.Json.{
  Value, arr, obj, Items, nil, cons, Fields, end, field, template, join, delete_field, set_field,
}
use db_cluster.Integrity.{
  Entry, utf16, units_le, insert_entry, sort_entries, entry, braces, canonical_serialize,
  serialize_items, serialize_fields, compute_integrity_hash,
}

-- two keys are the same sequence of code units
abbrev pub same_units : List ℕ → List ℕ → Bool
same_units [] [] = true
same_units [] (y ∷ ys) = false
same_units (x ∷ xs) [] = false
same_units (x ∷ xs) (y ∷ ys) = let rest = same_units xs ys in if nat_beq x y then rest else false

units_le_total : (a b : List ℕ) → units_le a b ≡ false → units_le b a ≡ true
unfolding units_le
units_le_total [] b h = cc
units_le_total (x ∷ xs) [] h = refl
units_le_total (x ∷ xs) (y ∷ ys) h = ground (arith, units_le_total xs ys)

units_le_antisym :
    (a b : List ℕ) → same_units a b ≡ false → units_le a b ≡ true → units_le b a ≡ false
unfolding units_le
units_le_antisym [] [] d h = cc
units_le_antisym [] (y ∷ ys) d h = refl
units_le_antisym (x ∷ xs) [] d h = cc
units_le_antisym (x ∷ xs) (y ∷ ys) d h = ground (arith, units_le_antisym xs ys)

units_le_trans : (a b c : List ℕ) → units_le a b ≡ true → units_le b c ≡ true → units_le a c ≡ true
unfolding units_le
units_le_trans [] b c h k = refl
units_le_trans (x ∷ xs) [] c h k = cc
units_le_trans (x ∷ xs) (y ∷ ys) [] h k = cc
units_le_trans (x ∷ xs) (y ∷ ys) (z ∷ zs) h k = ground (arith, units_le_trans xs ys zs)

insert_entry_swap :
    (a b : Entry) (es : List Entry)
    → same_units a.units b.units ≡ false
    → units_le a.units b.units ≡ true
    → insert_entry a (insert_entry b es) ≡ insert_entry b (insert_entry a es)
unfolding insert_entry
insert_entry_swap a b [] d h = ground (arith, units_le_antisym a.units b.units d h)
insert_entry_swap a b (c ∷ cs) d h = ground (
  arith,
  units_le_antisym a.units b.units d h,
  units_le_trans a.units b.units c.units h,
  units_le_total a.units c.units,
  units_le_total b.units c.units,
  insert_entry_swap a b cs d h,
)

same_units_comm : (a b : List ℕ) → same_units a b ≡ same_units b a
same_units_comm [] [] = refl
same_units_comm [] (y ∷ ys) = refl
same_units_comm (x ∷ xs) [] = refl
same_units_comm (x ∷ xs) (y ∷ ys) = ground (arith, same_units_comm xs ys)

-- two entries with different keys are sorted alike, whichever was put in first
insert_entry_comm :
    (a b : Entry) (es : List Entry)
    → same_units a.units b.units ≡ false
    → insert_entry a (insert_entry b es) ≡ insert_entry b (insert_entry a es)
insert_entry_comm a b es d = elim (Bool-cases (units_le a.units b.units)) [
  | inl e ↦ insert_entry_swap a b es d e
  | inr e ↦ sym (
      insert_entry_swap b a es (same_units_comm b.units a.units ∙ d)
        (units_le_total a.units b.units e))
]

-- The values that differ in the order of the keys of their objects only, at any depth. Two keys that
-- change places are different texts.
mutual
  pub data AlikeValues : Value → Value → Type 0 where
    same : (v : Value) → AlikeValues v v
    arrays : {xs ys : Items} → AlikeItems xs ys → AlikeValues (arr xs) (arr ys)
    objects : {f g : Fields} → AlikeFields f g → AlikeValues (obj f) (obj g)

  pub data AlikeItems : Items → Items → Type 0 where
    none_left : AlikeItems nil nil
    items :
        {x y : Value} {xs ys : Items}
        → AlikeValues x y
        → AlikeItems xs ys
        → AlikeItems (cons x xs) (cons y ys)

  pub data AlikeFields : Fields → Fields → Type 0 where
    ended : AlikeFields end end
    fields :
        {v w : Value} {f g : Fields} (k : String)
        → AlikeValues v w
        → AlikeFields f g
        → AlikeFields (field k v f) (field k w g)
    swapped :
        (j k : String) (v w : Value) (f : Fields)
        → same_units (utf16 j) (utf16 k) ≡ false
        → AlikeFields (field j v (field k w f)) (field k w (field j v f))
    both : {f g h : Fields} → AlikeFields f g → AlikeFields g h → AlikeFields f h

mutual
  unfolding canonical_serialize serialize_items serialize_fields braces sort_entries entry

  serialize-Alike : {v w : Value} → AlikeValues v w → canonical_serialize v ≡ canonical_serialize w
  serialize-Alike (same v) = refl
  serialize-Alike (arrays xs) = ap (λ ts. template ("[" ∷ join "," ts ∷ "]" ∷ [])) (items-Alike xs)
  serialize-Alike (objects f) =
      ap (λ es. template ("{" ∷ join "," (map (λ (e : Entry). e.text) es) ∷ "}" ∷ []))
        (fields-Alike f)

  items-Alike : {xs ys : Items} → AlikeItems xs ys → serialize_items xs ≡ serialize_items ys
  items-Alike none_left = refl
  items-Alike (items v xs) = ap₂ (λ t ts. t ∷ ts) (serialize-Alike v) (items-Alike xs)

  fields-Alike :
      {f g : Fields}
      → AlikeFields f g
      → sort_entries (serialize_fields f) ≡ sort_entries (serialize_fields g)
  fields-Alike ended = refl
  fields-Alike (fields k v f) =
      ap₂ (λ t es. insert_entry (entry k t) es) (serialize-Alike v) (fields-Alike f)
  fields-Alike (swapped j k v w f d) =
      insert_entry_comm (entry j (canonical_serialize v)) (entry k (canonical_serialize w))
        (sort_entries (serialize_fields f)) d
  fields-Alike (both f g) = fields-Alike f ∙ fields-Alike g

same_fields : (f : Fields) → AlikeFields f f
same_fields end = ended
same_fields (field k v f) = fields k (same v) (same_fields f)

delete-set_field :
    (f : Fields) (k : String) (v : Value) → delete_field (set_field f k v) k ≡ delete_field f k
unfolding delete_field set_field
delete-set_field end k v = ground (arith, eq_iff k k)
delete-set_field (field j w f) k v = ground (arith, delete-set_field f k v)

delete_field-Alike :
    {f g : Fields} (key : String)
    → AlikeFields f g
    → AlikeFields (delete_field f key) (delete_field g key)
unfolding delete_field
delete_field-Alike key ended = ended
delete_field-Alike key (fields k v f) = elim (Bool-cases (k == key)) [
  | inl e ↦ rw e (delete_field-Alike key f)
  | inr e ↦ rw e (fields k v (delete_field-Alike key f))
]
delete_field-Alike key (swapped j k v w f d) = elim (Bool-cases (j == key)) [
  | inl e ↦ elim (Bool-cases (k == key)) [
    | inl e' ↦ rw (e, e') (same_fields (delete_field f key))
    | inr e' ↦ rw (e, e') (same_fields (field k w (delete_field f key)))
  ]
  | inr e ↦ elim (Bool-cases (k == key)) [
    | inl e' ↦ rw (e, e') (same_fields (field j v (delete_field f key)))
    | inr e' ↦ rw (e, e') (swapped j k v w (delete_field f key) d)
  ]
]
delete_field-Alike key (both f g) = both (delete_field-Alike key f) (delete_field-Alike key g)

-- The integrity hash of a record does not depend on the order in which the keys of its objects were
-- set, at any depth, nor on the hash that the record carries already.
pub compute_integrity_hash-Alike :
    (digest : String → String) {f g : Fields} (hash : Value)
    → AlikeFields f g
    → compute_integrity_hash digest (set_field f "integrityHash" hash)
      ≡ compute_integrity_hash digest g
unfolding compute_integrity_hash
compute_integrity_hash-Alike digest {f} {g} hash a = ap digest (
    serialize-Alike (
      subst (λ x. AlikeValues (obj x) (obj (delete_field g "integrityHash")))
        (sym (delete-set_field f "integrityHash" hash))
        (objects (delete_field-Alike "integrityHash" a))))
