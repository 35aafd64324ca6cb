-- ===== src/Json.antt =====
-- Values of type `unknown` and `Record<string, unknown>` of the source, and the text of a template
-- literal. `typeof` and `Buffer.isBuffer` are the constructors of `Value`; a number carries the text
-- that `JSON.stringify` prints for it, which is all that the source reads of it.
mod Text
pub mod Reload
unfoldable pub use Text.{template, join, decimal, is_blank}
use db_cluster.Prelude.{
  ℕ, String, Bool, true, false, Option, none, some, List, [], ◌∷◌, ◌==◌, if◌then◌else◌,
}

mutual
  pub data Value : Type 0 where
    null : Value
    bool : Bool → Value
    num : String → Value
    str : String → Value
    buffer : List ℕ → Value
    obj : Fields → Value
    arr : Items → Value

  pub data Items : Type 0 where
    cons : Value → Items → Items
    nil : Items

  pub data Fields : Type 0 where
    field : String → Value → Fields → Fields
    end : Fields

-- `payload[key]`; `none` is `undefined`
unfoldable pub get_field : Fields → String → Option Value
get_field end key = none
get_field (field k v rest) key = if k == key then some v else get_field rest key

-- `{ ...payload, [key]: value }`: a key that is there keeps its place
unfoldable pub set_field : Fields → String → Value → Fields
set_field end key value = field key value end
set_field (field k v rest) key value =
    let rest' = set_field rest key value in if k == key then field k value rest else field k v rest'

-- `{ ...payload, ...others }`
unfoldable pub spread : Fields → Fields → Fields
unfolding set_field
spread fields end = fields
spread fields (field k v rest) = spread (set_field fields k v) rest

-- `delete object[key]`
unfoldable pub delete_field : Fields → String → Fields
delete_field end key = end
delete_field (field k v rest) key =
    let rest' = delete_field rest key in if k == key then rest' else field k v rest'

-- `Object.keys`
abbrev pub keys : Fields → List String
keys end = []
keys (field k v rest) = k ∷ keys rest

-- `typeof v === 'string'`
abbrev pub is_string : Option Value → Bool
is_string (some (str s)) = true
is_string _ = false

-- `typeof v === 'string' && v.length > 0`
abbrev pub is_nonempty_string : Option Value → Bool
is_nonempty_string (some (str s)) = if s == "" then false else true
is_nonempty_string _ = false

-- `!!v && typeof v === 'object'`
abbrev pub is_object : Option Value → Bool
is_object (some (buffer b)) = true
is_object (some (arr xs)) = true
is_object (some (obj f)) = true
is_object _ = false
