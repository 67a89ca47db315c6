-- ===== src/LineHaul/LoadingKeeps.antt =====
-- What assignTransfer and removeTransfer leave of the trips and their manifests, and that they keep
-- what holds of planning.
use project_logictic.Prelude.{
  true, ℕ, List, [], ◌∷◌, ◌++◌, update_many, ◌+◌, ◌&&◌, ◌≡◌, Option, none, some, arith, inl, inr,
  Option-cases, find_first,
}
use project_logictic.Prelude.Eq.{◌==◌, contains, nat_eq}
use project_logictic.Schema.{line_haul_trip_status_eq}
use project_logictic.LineHaul.Effects.{found_itself}
use project_logictic.Store.{
  Store, LineHaulTrip, LineHaulVehicle, LineHaulTripTransfer, WarehouseTransfer, Actor,
  ClientContext, Ensures,
}
use project_logictic.LineHaul.Capacity.{
  PackageSnapshot, calculate_manifest_weight_grams, resolve_shipment_load_weight_grams,
  assert_manifest_within_capacity,
}
use project_logictic.LineHaul.Manifest.{Result-cases}
use project_logictic.LineHaul.Policy.{
  configurable_line_haul_trip_statuses, assert_trip_configurable, assert_transfer_matches_trip,
}
use project_logictic.LineHaul.Booking.{trip_by_id, find_trip, find_vehicle}
use project_logictic.LineHaul.Loading.{
  transfer_by_id, transfer_assignments, is_active_assignment, assign_now, assign_unless_active,
  assign_transfer, is_on_trip, remove_active, remove_transfer, new_assignment, remove_where,
  remove_data,
}
use project_logictic.LineHaul.Planned.{IsPlanned, Planned, remove-Planned, assign-Planned}

module _ (s : Store) (Q : List LineHaulTrip → List LineHaulTripTransfer → Type 0)
    (same : Q s.trips s.trip_transfers)
    (assigns : (new_id transfer_id actor_id : ℕ) (current : LineHaulTrip)
      → trip_by_id current.id s ≡ some current
      → contains configurable_line_haul_trip_statuses current.status ≡ true
      → find_first (is_active_assignment transfer_id) s.trip_transfers ≡ none
      → Q s.trips
          (s.trip_transfers ++ (new_assignment new_id current.id transfer_id actor_id ∷ [])))
    (removes : (id now actor_id : ℕ)
      → Q s.trips (update_many (remove_where id) (remove_data now actor_id) s.trip_transfers)) where
  assign_now-leaves :
      (snapshot : ℕ → PackageSnapshot) (new_id : ℕ) (actor : Actor) (current : LineHaulTrip)
      (vehicle : LineHaulVehicle) (transfer : WarehouseTransfer) (context : ClientContext)
      → trip_by_id current.id s ≡ some current
      → contains configurable_line_haul_trip_statuses current.status ≡ true
      → find_first (is_active_assignment transfer.id) s.trip_transfers ≡ none
      → Ensures
          (λ r. Q r.1.trips r.1.trip_transfers)
          (assign_now snapshot new_id actor current vehicle transfer context s)
  unfolding assign_now
  assign_now-leaves snapshot new_id actor current vehicle transfer context found unstarted free =
      elim (Result-cases (
        calculate_manifest_weight_grams
          (transfer_assignments snapshot s.transfers current.id s.trip_transfers))) [
            | inr (x, e) ↦ ground arith
            | inl (manifest, e) ↦
                elim (Result-cases
                  (resolve_shipment_load_weight_grams (snapshot transfer.shipment_id))) [
                    | inr (x, e') ↦ ground arith
                    | inl (weight, e') ↦
                        elim (Result-cases (
                          assert_manifest_within_capacity (manifest + weight)
                            vehicle.capacity_weight_grams)) [
                              | inr (x, e'') ↦ ground arith
                              | inl (capacity, e'') ↦ ground (
                                arith,
                                assigns new_id transfer.id actor.id current found unstarted free,
                              )
                            ]
                  ]
          ]

  assign_unless_active-leaves :
      (snapshot : ℕ → PackageSnapshot) (new_id : ℕ) (actor : Actor) (current : LineHaulTrip)
      (vehicle : LineHaulVehicle) (transfer : WarehouseTransfer) (context : ClientContext)
      (active : Option LineHaulTripTransfer)
      → trip_by_id current.id s ≡ some current
      → contains configurable_line_haul_trip_statuses current.status ≡ true
      → find_first (is_active_assignment transfer.id) s.trip_transfers ≡ active
      → Ensures
          (λ r. Q r.1.trips r.1.trip_transfers)
          (assign_unless_active snapshot new_id actor current vehicle transfer context active s)
  unfolding assign_unless_active
  assign_unless_active-leaves snapshot new_id actor current vehicle transfer context none found
        unstarted free =
      assign_now-leaves snapshot new_id actor current vehicle transfer context found unstarted free
  assign_unless_active-leaves snapshot new_id actor current vehicle transfer context (some a) found
        unstarted e =
      ground arith

  pub assign_transfer-leaves :
      (snapshot : ℕ → PackageSnapshot) (new_id : ℕ) (actor : Actor) (id transfer_id : ℕ)
      (context : ClientContext)
      → Ensures
          (λ r. Q r.1.trips r.1.trip_transfers)
          (assign_transfer snapshot new_id actor id transfer_id context s)
  unfolding assign_transfer find_trip find_vehicle assert_trip_configurable
      assert_transfer_matches_trip
  assign_transfer-leaves snapshot new_id actor id transfer_id context =
      elim (Option-cases (trip_by_id id s)) [
        | inl missing ↦ ground arith
        | inr (current, e) ↦
            elim (Option-cases (find_first (λ row. row.id == current.vehicle_id) s.vehicles)) [
              | inl missing ↦ ground arith
              | inr (vehicle, e') ↦ elim (Option-cases (transfer_by_id transfer_id s)) [
                | inl missing ↦ ground arith
                | inr (transfer, e'') ↦ ground (
                  arith,
                  assign_unless_active-leaves snapshot new_id actor current vehicle transfer context
                      (find_first (is_active_assignment transfer.id) s.trip_transfers)
                      (found_itself s id current e),
                )
              ]
            ]
      ]

  remove_active-leaves :
      (actor : Actor) (id transfer_id now : ℕ) (context : ClientContext)
      (assignment : Option LineHaulTripTransfer)
      → Ensures
          (λ r. Q r.1.trips r.1.trip_transfers)
          (remove_active actor id transfer_id now context assignment s)
  unfolding remove_active
  remove_active-leaves actor id transfer_id now context none =
      elim (Option-cases (find_first (is_on_trip id transfer_id) s.trip_transfers)) [
        | inl missing ↦ ground arith
        | inr (row, e) ↦ ground arith
      ]
  remove_active-leaves actor id transfer_id now context (some assignment) =
      ground (arith, removes assignment.id now actor.id)

  pub remove_transfer-leaves :
      (actor : Actor) (id transfer_id now : ℕ) (context : ClientContext)
      → Ensures
          (λ r. Q r.1.trips r.1.trip_transfers)
          (remove_transfer actor id transfer_id now context s)
  unfolding remove_transfer find_trip assert_trip_configurable
  remove_transfer-leaves actor id transfer_id now context = elim (Option-cases (trip_by_id id s)) [
    | inl missing ↦ ground arith
    | inr (current, e) ↦ ground (
      arith,
      remove_active-leaves actor id transfer_id now context
          (find_first (λ row. is_on_trip id transfer_id row && row.is_active) s.trip_transfers),
    )
  ]

module _ (s : Store) (planned : IsPlanned s) where
  -- `assignTransfer` keeps it.
  pub assign_transfer-keeps :
      (snapshot : ℕ → PackageSnapshot) (new_id : ℕ) (actor : Actor) (id transfer_id : ℕ)
      (context : ClientContext)
      → Ensures
          (λ r. IsPlanned r.1)
          (assign_transfer snapshot new_id actor id transfer_id context s)
  assign_transfer-keeps =
      assign_transfer-leaves s Planned planned
        (λ new_id transfer_id actor_id current _ _.
          assign-Planned s.trips s.trip_transfers planned new_id current.id transfer_id actor_id)
        (remove-Planned s.trips s.trip_transfers planned)

  -- `removeTransfer` keeps it.
  pub remove_transfer-keeps :
      (actor : Actor) (id transfer_id now : ℕ) (context : ClientContext)
      → Ensures (λ r. IsPlanned r.1) (remove_transfer actor id transfer_id now context s)
  remove_transfer-keeps =
      remove_transfer-leaves s Planned planned
        (λ new_id transfer_id actor_id current _ _.
          assign-Planned s.trips s.trip_transfers planned new_id current.id transfer_id actor_id)
        (remove-Planned s.trips s.trip_transfers planned)
