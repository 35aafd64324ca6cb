-- ===== src/Integrity/Examples.antt =====
-- The integrity hash of two records that differ in the order of their keys.
use db_cluster.Prelude.{◌≡◌, refl}
use db_cluster.Json.{Fields, field, end, str, num, obj, set_field}
use db_cluster.Integrity.{utf16, compute_integrity_hash}
use db_cluster.Integrity.Order.{
  same_units, ended, fields, swapped, objects, compute_integrity_hash-Alike,
}

abbrev written : Fields
written = field "detail" (obj (field "size" (num "3") (field "name" (str "a") end))) end

abbrev reread : Fields
reread = field "detail" (obj (field "name" (str "a") (field "size" (num "3") end))) end

compute_integrity_hash-Alike_example :
    compute_integrity_hash (λ t. t) (set_field written "integrityHash" (str "old"))
    ≡ compute_integrity_hash (λ t. t) reread
unfolding utf16 same_units
compute_integrity_hash-Alike_example =
    compute_integrity_hash-Alike (λ t. t) (str "old")
      (fields "detail" (objects (swapped "size" "name" (num "3") (str "a") end refl)) ended)
