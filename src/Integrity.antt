-- ===== src/Integrity.antt =====
-- src/types/integrity.ts: the text of a ledger record that is hashed. `digest` stands for the SHA-256 of
-- node:crypto, in hexadecimal.
mod Text
pub mod Order
mod Examples
unfoldable pub use Text.{quote, utf16, units_le}
use db_cluster.Prelude.{ℕ, suc, String, Bool, true, false, List, [], ◌∷◌, map, if◌then◌else◌}
use db_cluster.Json.{
  Value, null, bool, num, str, buffer, arr, obj, Items, nil, cons, Fields, end, field, delete_field,
  template, join, decimal,
}

-- A key, by the code units that it is sorted by, and the text of the property.
pub record Entry : Type 0 where
  pub units : List ℕ
  pub text : String

-- `keys.sort()`, which is stable, on the entries
unfoldable pub insert_entry : Entry → List Entry → List Entry
unfolding units_le
insert_entry e [] = e ∷ []
insert_entry e (f ∷ fs) =
    let rest = insert_entry e fs in if units_le e.units f.units then e ∷ f ∷ fs else f ∷ rest

unfoldable pub sort_entries : List Entry → List Entry
unfolding insert_entry
sort_entries [] = []
sort_entries (e ∷ es) = insert_entry e (sort_entries es)

unfoldable pub entry : String → String → Entry
unfolding quote utf16
entry key text = record { units = utf16 key; text = template (quote key ∷ ":" ∷ text ∷ []) }

-- an object, by the entries of its keys
unfoldable pub braces : List Entry → String
unfolding sort_entries
braces es = template ("{" ∷ join "," (map (λ (e : Entry). e.text) (sort_entries es)) ∷ "}" ∷ [])

-- a buffer is an object whose keys are its indices
unfoldable pub byte_entries : ℕ → List ℕ → List Entry
unfolding entry
byte_entries i [] = []
byte_entries i (b ∷ bs) = entry (decimal i) (decimal b) ∷ byte_entries (suc i) bs

-- `canonicalSerialize`
unfoldable mutual
  unfolding quote entry braces byte_entries

  pub canonical_serialize : Value → String
  canonical_serialize null = "null"
  canonical_serialize (bool true) = "true"
  canonical_serialize (bool false) = "false"
  canonical_serialize (num n) = n
  canonical_serialize (str s) = quote s
  canonical_serialize (buffer bs) = braces (byte_entries 0 bs)
  canonical_serialize (arr xs) = template ("[" ∷ join "," (serialize_items xs) ∷ "]" ∷ [])
  canonical_serialize (obj f) = braces (serialize_fields f)

  pub serialize_items : Items → List String
  serialize_items nil = []
  serialize_items (cons x xs) = canonical_serialize x ∷ serialize_items xs

  pub serialize_fields : Fields → List Entry
  serialize_fields end = []
  serialize_fields (field k v rest) = entry k (canonical_serialize v) ∷ serialize_fields rest

-- `computeIntegrityHash`
unfoldable pub compute_integrity_hash : (digest : String → String) → Fields → String
unfolding canonical_serialize delete_field
compute_integrity_hash digest fields =
    digest (canonical_serialize (obj (delete_field fields "integrityHash")))
