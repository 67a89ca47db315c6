-- ===== src/LineHaul/Manifest.antt =====
-- What the weight of a manifest is, and what a vehicle that passes the check can carry.
use project_logictic.Prelude.{
  ℕ, ◌≡◌, refl, sym, ap, ◌∙◌, ◌≤◌, ◌<◌, ◌+◌, ◌-◌, Bool, true, false, Option, none, some, List, [],
  ◌∷◌, inl, inr, ◌⊎◌, Bool-cases, arith, sum_by, if◌then◌else◌, leb, ltb, All, ◌&&◌,
}
use project_logictic.Prelude.Int.{ℤ, pos, negsuc, ◌-ℤ◌}
use project_logictic.Store.{Result, ok, err, Exception}
use project_logictic.Fees.Checks.{max_safe_integer}
use project_logictic.LineHaul.Capacity.{
  max_line_haul_capacity_weight_grams, resolve_shipment_load_weight_grams, ManifestAssignment,
  add_assignment, manifest_from, calculate_manifest_weight_grams, assert_valid_vehicle_capacity,
  within_capacity, assert_manifest_within_capacity, remaining_capacity_weight_grams,
}

-- The load of an assignment, for a specification: nothing for an inactive one.
abbrev pub loaded : Result ℕ → ℕ
loaded (ok weight) = weight
loaded (err e) = 0

abbrev pub load : ManifestAssignment → ℕ
load a = if a.is_active then loaded (resolve_shipment_load_weight_grams a.package_snapshot) else 0

-- An assignment whose weight can be read, if it is active.
abbrev pub IsReadable : ManifestAssignment → Type 0
IsReadable a =
    (a.is_active ≡ false)
    ⊎ ((w : ℕ) × (resolve_shipment_load_weight_grams a.package_snapshot ≡ ok w))

pub Result-cases : (r : Result ℕ) → ((n : ℕ) × (r ≡ ok n)) ⊎ ((e : Exception) × (r ≡ err e))
Result-cases (ok n) = inl (n, refl)
Result-cases (err e) = inr (e, refl)

manifest_from-err :
    (assignments : List ManifestAssignment) (e : Exception) (weight : ℕ)
    → ¬ (manifest_from (err e) assignments ≡ ok weight)
unfolding manifest_from
manifest_from-err [] e weight = ground arith
manifest_from-err (a ∷ as') e weight = ground arith

-- A round that leaves a total adds the load, keeps the total exact and had a readable weight.
round-load :
    (active : Bool) (r : Result ℕ) (total : ℕ) {next : ℕ}
    → total ≤ max_safe_integer
    → (if active then add_assignment total r else ok total) ≡ ok next
    → (next ≡ total + (if active then loaded r else 0))
      × ((next ≤ max_safe_integer) × ((active ≡ false) ⊎ ((w : ℕ) × (r ≡ ok w))))
unfolding add_assignment
round-load true (ok w) total exact e = elim (Bool-cases (leb (total + w) max_safe_integer)) [
  | inl h ↦ (ground arith, (ground arith, inr (w, refl)))
  | inr h ↦ (ground arith, (ground arith, inr (w, refl)))
]
round-load true (err x) total exact e = ground arith
round-load false r total exact e = (ground arith, (ground arith, inl refl))

manifest_from-sum :
    (assignments : List ManifestAssignment) (total : ℕ) {weight : ℕ}
    → total ≤ max_safe_integer
    → manifest_from (ok total) assignments ≡ ok weight
    → (weight ≡ total + sum_by load assignments)
      × ((weight ≤ max_safe_integer) × All IsReadable assignments)
unfolding manifest_from
manifest_from-sum [] total exact e = ground arith
manifest_from-sum (a ∷ as') total {weight} exact e =
    elim (Result-cases (
      if a.is_active
      then add_assignment total (resolve_shipment_load_weight_grams a.package_snapshot)
      else ok total)) [
        | inl (next, step) ↦
            (let now =
                round-load a.is_active (resolve_shipment_load_weight_grams a.package_snapshot) total
                  exact step in
              let rest =
                manifest_from-sum as' next now.1.0 (sym (ap (λ r. manifest_from r as') step) ∙ e) in
              (ground arith, (rest.1.0, (now.1.1, rest.1.1))))
        | inr (x, step) ↦
            elim (manifest_from-err as' x weight (sym (ap (λ r. manifest_from r as') step) ∙ e)) [ ]
      ]

-- The weight that is calculated for a manifest is the sum of the loads of its active assignments,
-- each of which has a readable weight, and is at most 2 ^ 53 - 1.
pub calculate_manifest-sum :
    (assignments : List ManifestAssignment) {weight : ℕ}
    → calculate_manifest_weight_grams assignments ≡ ok weight
    → (weight ≡ sum_by load assignments)
      × ((weight ≤ max_safe_integer) × All IsReadable assignments)
unfolding calculate_manifest_weight_grams
calculate_manifest-sum assignments e =
    let sum = manifest_from-sum assignments 0 (ground arith) e in (ground arith, sum.1)

-- A vehicle passes the check only where it has a capacity between 1 and 100 000 000 grams that
-- the manifest does not exceed, and then the remaining capacity of the metrics is the difference.
pub assert_manifest_within_capacity_lem :
    (manifest : ℕ) (capacity : Option ℤ) {n : ℕ}
    → assert_manifest_within_capacity manifest capacity ≡ ok n
    → (capacity ≡ some (pos n))
      × ((0 < n)
          × ((n ≤ max_line_haul_capacity_weight_grams)
              × ((manifest ≤ n)
                  × (remaining_capacity_weight_grams manifest capacity
                      ≡ some (pos (n - manifest))))))
unfolding assert_manifest_within_capacity assert_valid_vehicle_capacity within_capacity
    remaining_capacity_weight_grams ◌-ℤ◌
assert_manifest_within_capacity_lem manifest none e = ground arith
assert_manifest_within_capacity_lem manifest (some (negsuc c)) e = ground arith
assert_manifest_within_capacity_lem manifest (some (pos c)) e =
    elim (Bool-cases (ltb 0 c && leb c max_line_haul_capacity_weight_grams)) [
      | inl h ↦ elim (Bool-cases (ltb c manifest)) [
        | inl over ↦ ground arith
        | inr fits ↦ (ground arith, (ground arith, (ground arith, (ground arith, ground arith))))
      ]
      | inr h ↦ ground arith
    ]
