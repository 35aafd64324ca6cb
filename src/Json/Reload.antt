-- ===== src/Json/Reload.antt =====
-- What `JSON.parse` makes of what `JSON.stringify` wrote: a Buffer comes back as `{ type, data }`, and a
-- number that prints as `null`, which is NaN or infinite, as null. All else comes back as it was.
use db_cluster.Prelude.{
  ℕ, Bool, true, false, not, ◌&&◌, List, [], ◌∷◌, ◌==◌, ◌≡◌, refl, ap, ap₂, arith, if◌then◌else◌,
}
use db_cluster.Json.{
  Value, null, bool, num, str, buffer, obj, arr, Items, cons, nil, Fields, field, end, decimal,
}

abbrev byte_items : List ℕ → Items
byte_items [] = nil
byte_items (b ∷ bs) = cons (num (decimal b)) (byte_items bs)

unfoldable mutual
  pub reload_value : Value → Value
  reload_value null = null
  reload_value (bool b) = bool b
  reload_value (num n) = if n == "null" then null else num n
  reload_value (str s) = str s
  reload_value (buffer bytes) =
      obj (field "type" (str "Buffer") (field "data" (arr (byte_items bytes)) end))
  reload_value (obj f) = obj (reload_fields f)
  reload_value (arr xs) = arr (reload_items xs)

  pub reload_items : Items → Items
  reload_items nil = nil
  reload_items (cons v rest) = cons (reload_value v) (reload_items rest)

  pub reload_fields : Fields → Fields
  reload_fields end = end
  reload_fields (field k v rest) = field k (reload_value v) (reload_fields rest)

-- No Buffer, and no number that is not finite, at any depth.
unfoldable mutual
  pub is_plain : Value → Bool
  is_plain null = true
  is_plain (bool b) = true
  is_plain (num n) = not (n == "null")
  is_plain (str s) = true
  is_plain (buffer bytes) = false
  is_plain (obj f) = has_plain_fields f
  is_plain (arr xs) = has_plain_items xs

  pub has_plain_items : Items → Bool
  has_plain_items nil = true
  has_plain_items (cons v rest) = is_plain v && has_plain_items rest

  pub has_plain_fields : Fields → Bool
  has_plain_fields end = true
  has_plain_fields (field k v rest) = is_plain v && has_plain_fields rest

mutual
  unfolding reload_value is_plain

  pub reload_value-plain : (v : Value) → is_plain v ≡ true → reload_value v ≡ v
  reload_value-plain null h = refl
  reload_value-plain (bool b) h = refl
  reload_value-plain (num n) h = ground arith
  reload_value-plain (str s) h = refl
  reload_value-plain (buffer bytes) h = absurd (cc)
  reload_value-plain (obj f) h = ap obj (reload_fields-plain f h)
  reload_value-plain (arr xs) h = ap arr (reload_items-plain xs h)

  pub reload_items-plain : (xs : Items) → has_plain_items xs ≡ true → reload_items xs ≡ xs
  reload_items-plain nil h = refl
  reload_items-plain (cons v rest) h =
      ap₂ cons (reload_value-plain v (ground arith)) (reload_items-plain rest (ground arith))

  pub reload_fields-plain : (f : Fields) → has_plain_fields f ≡ true → reload_fields f ≡ f
  reload_fields-plain end h = refl
  reload_fields-plain (field k v rest) h =
      ap₂ (field k) (reload_value-plain v (ground arith)) (reload_fields-plain rest (ground arith))
