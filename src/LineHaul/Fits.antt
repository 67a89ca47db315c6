-- ===== src/LineHaul/Fits.antt =====
-- A transfer that is assigned to a trip fits into its vehicle with the rest of the manifest, as the
-- manifest is weighed afterwards.
use project_logictic.Prelude.{
  ℕ, ◌+◌, ◌≡◌, ◌≤◌, ◌∙◌, ap, refl, sym, true, none, some, List, [], ◌∷◌, ◌++◌, arith, inl, inr,
  Option-cases, find_first, find_first-passes, if◌then◌else◌,
}
use mathlib.Core.Path.{subst}
use mathlib.Core.List.{append_assoc}
use project_logictic.Prelude.Int.{pos}
use project_logictic.Prelude.Eq.{◌==◌, nat_eq, nat_beq_iff}
use project_logictic.Store.{
  Store, LineHaulTrip, LineHaulVehicle, LineHaulTripTransfer, WarehouseTransfer, Actor,
  ClientContext, Result, ok, err, Ensures,
}
use project_logictic.Fees.Checks.{max_safe_integer}
use project_logictic.LineHaul.Capacity.{
  PackageSnapshot, ManifestAssignment, add_assignment, manifest_from,
  calculate_manifest_weight_grams, resolve_shipment_load_weight_grams,
  assert_manifest_within_capacity,
}
use project_logictic.LineHaul.Manifest.{Result-cases, assert_manifest_within_capacity_lem}
use project_logictic.LineHaul.Policy.{assert_trip_configurable, assert_transfer_matches_trip}
use project_logictic.LineHaul.Booking.{trip_by_id, find_trip, find_vehicle}
use project_logictic.LineHaul.Loading.{
  transfer_by_id, transfer_snapshot, transfer_assignments, is_active_assignment, new_assignment,
  assign_now, assign_unless_active, assign_transfer,
}

-- One more assignment adds its weight.
manifest_from-add :
    (assignments : List ManifestAssignment) (start : Result ℕ) (manifest weight : ℕ)
    (snapshot : PackageSnapshot)
    → manifest_from start assignments ≡ ok manifest
    → resolve_shipment_load_weight_grams snapshot ≡ ok weight
    → manifest + weight ≤ max_safe_integer
    → manifest_from start
        (assignments ++ (record { is_active = true; package_snapshot = snapshot } ∷ []))
      ≡ ok (manifest + weight)
unfolding manifest_from add_assignment
manifest_from-add [] (ok n) manifest weight snapshot e e' exact =
    let step : add_assignment n (resolve_shipment_load_weight_grams snapshot)
        ≡ ok (manifest + weight) =
      ground arith in
    ap (λ r. manifest_from r []) step
manifest_from-add [] (err x) manifest weight snapshot e e' exact = ground arith
manifest_from-add (a ∷ rest) (ok n) manifest weight snapshot e e' exact =
    manifest_from-add rest
      (if a.is_active
        then add_assignment n (resolve_shipment_load_weight_grams a.package_snapshot)
        else ok n)
      manifest weight snapshot e e' exact
manifest_from-add (a ∷ rest) (err x) manifest weight snapshot e e' exact = ground arith

transfer_assignments-append :
    (snapshot : ℕ → PackageSnapshot) (transfers : List WarehouseTransfer) (trip_id : ℕ)
    (xs ys : List LineHaulTripTransfer)
    → transfer_assignments snapshot transfers trip_id (xs ++ ys)
      ≡ transfer_assignments snapshot transfers trip_id xs
        ++ transfer_assignments snapshot transfers trip_id ys
unfolding transfer_assignments
transfer_assignments-append snapshot transfers trip_id [] ys = refl
transfer_assignments-append snapshot transfers trip_id (x ∷ xs) ys =
    ap
      (λ rest.
        (if x.trip_id == trip_id
          then record {
            is_active = x.is_active;
            package_snapshot =
                transfer_snapshot snapshot
                  (find_first (λ transfer. transfer.id == x.warehouse_transfer_id) transfers);
          }
            ∷ []
          else [])
        ++ rest)
      (transfer_assignments-append snapshot transfers trip_id xs ys)
    ∙ sym (
        append_assoc
          (if x.trip_id == trip_id
            then record {
              is_active = x.is_active;
              package_snapshot =
                  transfer_snapshot snapshot
                    (find_first (λ transfer. transfer.id == x.warehouse_transfer_id) transfers);
            }
              ∷ []
            else [])
          _ _)

-- What the vehicle of a trip can carry is at least the weight of the trip's manifest.
abbrev pub Fits : (ℕ → PackageSnapshot) → LineHaulTrip → LineHaulVehicle → Store → Type 0
Fits snapshot trip vehicle s =
    (weight : ℕ) × (capacity : ℕ) × (calculate_manifest_weight_grams
        (transfer_assignments snapshot s.transfers trip.id s.trip_transfers)
      ≡ ok weight)
    × (vehicle.capacity_weight_grams ≡ some (pos capacity))
    × (weight ≤ capacity)

module _ (snapshot : ℕ → PackageSnapshot) (s : Store) (new_id : ℕ) (actor : Actor)
    (current : LineHaulTrip) (vehicle : LineHaulVehicle) (transfer : WarehouseTransfer)
    (context : ClientContext) (found : transfer_by_id transfer.id s ≡ some transfer) where
  new_on_manifest :
      transfer_assignments snapshot s.transfers current.id
        (new_assignment new_id current.id transfer.id actor.id ∷ [])
      ≡ record { is_active = true; package_snapshot = snapshot transfer.shipment_id } ∷ []
  unfolding transfer_assignments new_assignment
  new_on_manifest = ground arith

  weighed :
      (manifest weight capacity : ℕ)
      → calculate_manifest_weight_grams
          (transfer_assignments snapshot s.transfers current.id s.trip_transfers)
        ≡ ok manifest
      → resolve_shipment_load_weight_grams (snapshot transfer.shipment_id) ≡ ok weight
      → assert_manifest_within_capacity (manifest + weight) vehicle.capacity_weight_grams
        ≡ ok capacity
      → Fits snapshot current vehicle (record s {
        trip_transfers =
            s.trip_transfers ++ (new_assignment new_id current.id transfer.id actor.id ∷ []);
      })
  unfolding calculate_manifest_weight_grams
  weighed manifest weight capacity e e' e'' =
      let (has, (positive, (most, (fits, left)))) =
        assert_manifest_within_capacity_lem (manifest + weight) vehicle.capacity_weight_grams e'' in
      (
        manifest + weight,
        capacity,
        ap calculate_manifest_weight_grams (
              transfer_assignments-append snapshot s.transfers current.id s.trip_transfers _
              ∙ ap (◌++◌ (transfer_assignments snapshot s.transfers current.id s.trip_transfers))
                  new_on_manifest)
            ∙ manifest_from-add
                (transfer_assignments snapshot s.transfers current.id s.trip_transfers) (ok 0)
                manifest weight (snapshot transfer.shipment_id) e e' (ground arith),
        has,
        fits,
      )

  assign_now-Fits :
      Ensures
        (λ r. Fits snapshot current vehicle r.1)
        (assign_now snapshot new_id actor current vehicle transfer context s)
  unfolding assign_now
  assign_now-Fits =
      elim (Result-cases (
        calculate_manifest_weight_grams
          (transfer_assignments snapshot s.transfers current.id s.trip_transfers))) [
            | inr (x, e) ↦ ground arith
            | inl (manifest, e) ↦
                elim (Result-cases
                  (resolve_shipment_load_weight_grams (snapshot transfer.shipment_id))) [
                    | inr (x, e') ↦ ground arith
                    | inl (weight, e') ↦
                        elim (Result-cases (
                          assert_manifest_within_capacity (manifest + weight)
                            vehicle.capacity_weight_grams)) [
                              | inr (x, e'') ↦ ground arith
                              | inl (capacity, e'') ↦
                                  ground (arith, weighed manifest weight capacity e e' e'')
                            ]
                  ]
          ]

-- A transfer that was on no manifest is assigned only where the vehicle of the trip can carry the
-- manifest with it, as it is weighed again afterwards.
pub assign_transfer-Fits :
    (snapshot : ℕ → PackageSnapshot) (s : Store) (new_id : ℕ) (actor : Actor) (id transfer_id : ℕ)
    (context : ClientContext) (current : LineHaulTrip) (vehicle : LineHaulVehicle)
    → trip_by_id id s ≡ some current
    → find_first (λ row. row.id == current.vehicle_id) s.vehicles ≡ some vehicle
    → find_first (is_active_assignment transfer_id) s.trip_transfers ≡ none
    → Ensures
        (λ r. Fits snapshot current vehicle r.1)
        (assign_transfer snapshot new_id actor id transfer_id context s)
unfolding assign_transfer find_trip find_vehicle assert_trip_configurable
    assert_transfer_matches_trip assign_unless_active
assign_transfer-Fits snapshot s new_id actor id transfer_id context current vehicle e e' free =
    elim (Option-cases (transfer_by_id transfer_id s)) [
      | inl missing ↦ ground arith
      | inr (transfer, e'') ↦
          let same : transfer.id ≡ transfer_id =
            (nat_beq_iff transfer.id transfer_id).0
              (find_first-passes (λ row. row.id == transfer_id) s.transfers e'') in
          let unassigned : find_first (is_active_assignment transfer.id) s.trip_transfers ≡ none =
            subst (λ k. find_first (is_active_assignment k) s.trip_transfers ≡ none) (sym same)
              free in
          let itself : transfer_by_id transfer.id s ≡ some transfer =
            subst (λ k. transfer_by_id k s ≡ some transfer) (sym same) e'' in
          ground
            (arith, assign_now-Fits snapshot s new_id actor current vehicle transfer context itself)
    ]
