-- ===== src/LineHaul/Capacity.antt =====
-- The weight of a manifest and the capacity of a vehicle
-- (backend/src/modules/line-haul/line-haul-capacity.ts).
use project_logictic.Prelude.{
  ℕ, ◌+◌, ◌&&◌, Bool, Option, none, some, List, [], ◌∷◌, if◌then◌else◌, leb, ltb,
}
use project_logictic.Prelude.Int.{ℤ, pos, ◌-ℤ◌}
use project_logictic.Store.{
  Number, int, Result, ok, err, conflict, line_haul_shipment_weight_invalid,
  line_haul_manifest_weight_invalid, line_haul_vehicle_capacity_required,
  line_haul_vehicle_capacity_exceeded,
}
use project_logictic.Fees.Checks.{max_safe_integer}

abbrev pub max_line_haul_capacity_weight_grams : ℕ
max_line_haul_capacity_weight_grams = 100000000

-- A field of an object from a JSON column: missing, a number, or another value.
pub data Field : Type 0 where
  undefined : Field
  value : Number → Field

-- A package snapshot: an object with its two weights, or null, an array or no object at all.
pub data PackageSnapshot : Type 0 where
  object : (verified_weight_grams weight_grams : Field) → PackageSnapshot
  no_object : PackageSnapshot

-- The verified weight, or the declared one where there is none.
unfoldable pub weight_field : Field → Field → Field
weight_field undefined weight = weight
weight_field (value verified) weight = value verified

unfoldable pub field_weight : Field → Result ℕ
field_weight (value (int (pos n))) =
    if ltb 0 n && leb n max_safe_integer
    then ok n
    else err (conflict line_haul_shipment_weight_invalid)
field_weight _ = err (conflict line_haul_shipment_weight_invalid)

unfoldable pub resolve_shipment_load_weight_grams : PackageSnapshot → Result ℕ
unfolding weight_field field_weight
resolve_shipment_load_weight_grams no_object = err (conflict line_haul_shipment_weight_invalid)
resolve_shipment_load_weight_grams (object verified weight) =
    field_weight (weight_field verified weight)

pub record ManifestAssignment : Type 0 where
  pub is_active : Bool
  pub package_snapshot : PackageSnapshot

-- One round of the loop: the assignment's weight is added to the total, which must stay exact.
unfoldable pub add_assignment : ℕ → Result ℕ → Result ℕ
add_assignment total (err e) = err e
add_assignment total (ok weight) =
    if leb (total + weight) max_safe_integer
    then ok (total + weight)
    else err (conflict line_haul_manifest_weight_invalid)

unfoldable pub manifest_from : Result ℕ → List ManifestAssignment → Result ℕ
unfolding add_assignment
manifest_from (err e) assignments = err e
manifest_from (ok total) [] = ok total
manifest_from (ok total) (a ∷ assignments) =
    manifest_from
      (if a.is_active
        then add_assignment total (resolve_shipment_load_weight_grams a.package_snapshot)
        else ok total)
      assignments

unfoldable pub calculate_manifest_weight_grams : List ManifestAssignment → Result ℕ
unfolding manifest_from
calculate_manifest_weight_grams assignments = manifest_from (ok 0) assignments

-- `assertValidVehicleCapacity`, which hands on the capacity that it has narrowed.
unfoldable pub assert_valid_vehicle_capacity : Option ℤ → Result ℕ
assert_valid_vehicle_capacity (some (pos n)) =
    if ltb 0 n && leb n max_line_haul_capacity_weight_grams
    then ok n
    else err (conflict line_haul_vehicle_capacity_required)
assert_valid_vehicle_capacity _ = err (conflict line_haul_vehicle_capacity_required)

unfoldable pub within_capacity : ℕ → Result ℕ → Result ℕ
within_capacity manifest (err e) = err e
within_capacity manifest (ok capacity) =
    if ltb capacity manifest
    then err (conflict line_haul_vehicle_capacity_exceeded)
    else ok capacity

unfoldable pub assert_manifest_within_capacity : ℕ → Option ℤ → Result ℕ
unfolding assert_valid_vehicle_capacity within_capacity
assert_manifest_within_capacity manifest capacity =
    within_capacity manifest (assert_valid_vehicle_capacity capacity)

-- `remainingCapacityWeightGrams` of the metrics.
unfoldable pub remaining_capacity_weight_grams : ℕ → Option ℤ → Option ℤ
remaining_capacity_weight_grams manifest none = none
remaining_capacity_weight_grams manifest (some capacity) = some (capacity -ℤ pos manifest)
