-- ===== src/LineHaul/Loading.antt =====
-- The manifest of a trip: assignTransfer and removeTransfer of LineHaulTripsService
-- (backend/src/modules/line-haul/line-haul-trips.service.ts). The rows of the trip and of the
-- transfer are locked, so that the commands on them run one after another, and a new assignment
-- meets no unique index. The package snapshots of the shipments are an argument: no command of
-- the service writes them.
use project_logictic.Prelude.{
  ℕ, ◌+◌, ◌&&◌, Bool, true, false, Option, none, some, List, [], ◌∷◌, ◌++◌, String, find_first,
  count_where, update_many, if◌then◌else◌,
}
use project_logictic.Prelude.Int.{pos}
use project_logictic.Prelude.Eq.{◌==◌, ◌!=◌, nat_eq}
use project_logictic.Store.{
  Store, LineHaulTrip, LineHaulVehicle, LineHaulTripTransfer, WarehouseTransfer, AuditLog, Json,
  flag, number, identifier, Actor, ClientContext, Result, ok, err, Tx, pure, throw, throw_if,
  or_throw, gets, modify, audit, ◌>>=◌, ◌>>◌, conflict, not_found, warehouse_transfer_active_trip,
  warehouse_transfer_not_found, line_haul_transfer_assignment_not_found,
  line_haul_transfer_concurrent_modification,
}
use project_logictic.LineHaul.Capacity.{
  PackageSnapshot, no_object, ManifestAssignment, calculate_manifest_weight_grams,
  resolve_shipment_load_weight_grams, assert_manifest_within_capacity,
}
use project_logictic.LineHaul.Policy.{assert_trip_configurable, assert_transfer_matches_trip}
use project_logictic.LineHaul.Booking.{find_trip, find_vehicle}

-- What a check gives, or its exception.
abbrev pub lift : Result ℕ → Tx ℕ
lift (ok n) = pure n
lift (err e) = throw e

abbrev pub transfer_by_id : ℕ → Store → Option WarehouseTransfer
transfer_by_id id s = find_first (λ row. row.id == id) s.transfers

-- The snapshot of the parcel of a transfer.
abbrev pub transfer_snapshot : (ℕ → PackageSnapshot) → Option WarehouseTransfer → PackageSnapshot
transfer_snapshot snapshot none = no_object
transfer_snapshot snapshot (some transfer) = snapshot transfer.shipment_id

-- `transferAssignments` of a trip, each with its parcel.
unfoldable pub transfer_assignments :
    (ℕ → PackageSnapshot)
    → List WarehouseTransfer
    → (trip_id : ℕ) → List LineHaulTripTransfer
    → List ManifestAssignment
transfer_assignments snapshot transfers trip_id [] = []
transfer_assignments snapshot transfers trip_id (row ∷ rows) =
    (if row.trip_id == trip_id
      then record {
        is_active = row.is_active;
        package_snapshot =
            transfer_snapshot snapshot
              (find_first (λ transfer. transfer.id == row.warehouse_transfer_id) transfers);
      }
        ∷ []
      else [])
    ++ transfer_assignments snapshot transfers trip_id rows

unfoldable pub is_active_assignment : ℕ → LineHaulTripTransfer → Bool
is_active_assignment transfer_id row = row.warehouse_transfer_id == transfer_id && row.is_active

unfoldable pub new_assignment : (new_id trip_id transfer_id actor_id : ℕ) → LineHaulTripTransfer
new_assignment new_id trip_id transfer_id actor_id = record {
  id = new_id;
  trip_id = trip_id;
  warehouse_transfer_id = transfer_id;
  is_active = true;
  assigned_by_id = actor_id;
  removed_by_id = none;
  removed_at = none;
}

assignment_audit :
    Actor
    → ClientContext
    → String
    → ℕ
    → Option (List (String × Json))
    → List (String × Json)
    → Option (List (String × Json))
    → AuditLog
assignment_audit actor context action id before after metadata = record {
  actor_id = actor.id;
  actor_role = actor.role;
  action = action;
  entity_type = "LineHaulTripTransfer";
  entity_id = id;
  before = before;
  after = some after;
  metadata = metadata;
  ip_address = context.ip_address;
  user_agent = context.user_agent;
}

assignment_entry : (trip_id transfer_id : ℕ) → Bool → List (String × Json)
assignment_entry trip_id transfer_id is_active =
    ("tripId", identifier trip_id)
    ∷ ("warehouseTransferId", identifier transfer_id)
    ∷ ("isActive", flag is_active)
    ∷ []

-- After the check that the transfer has no active assignment.
unfoldable pub assign_now :
    (ℕ → PackageSnapshot)
    → (new_id : ℕ) → Actor
    → LineHaulTrip
    → LineHaulVehicle
    → WarehouseTransfer
    → ClientContext
    → Tx (Unit {0})
unfolding transfer_assignments new_assignment assignment_audit assignment_entry
assign_now snapshot new_id actor current vehicle transfer context = do
  rows ← gets (λ s. transfer_assignments snapshot s.transfers current.id s.trip_transfers)
  manifest ← lift (calculate_manifest_weight_grams rows)
  weight ← lift (resolve_shipment_load_weight_grams (snapshot transfer.shipment_id))
  capacity ←
      lift (assert_manifest_within_capacity (manifest + weight) vehicle.capacity_weight_grams)
  modify (λ s. record s {
    trip_transfers =
        s.trip_transfers ++ (new_assignment new_id current.id transfer.id actor.id ∷ []);
  })
  audit (
      assignment_audit actor context "LINE_HAUL_TRANSFER_ASSIGNED" new_id none
        (assignment_entry current.id transfer.id true)
        (some (
          ("transferWeightGrams", number (pos weight))
          ∷ ("manifestWeightGrams", number (pos (manifest + weight)))
          ∷ ("vehicleCapacityWeightGrams", number (pos capacity))
          ∷ [])))

-- A transfer that is on the trip stays; one that is on another trip is refused.
unfoldable pub assign_unless_active :
    (ℕ → PackageSnapshot)
    → (new_id : ℕ) → Actor
    → LineHaulTrip
    → LineHaulVehicle
    → WarehouseTransfer
    → ClientContext
    → Option LineHaulTripTransfer
    → Tx (Unit {0})
assign_unless_active snapshot new_id actor current vehicle transfer context (some active) =
    throw_if (active.trip_id != current.id) (conflict warehouse_transfer_active_trip)
assign_unless_active snapshot new_id actor current vehicle transfer context none =
    assign_now snapshot new_id actor current vehicle transfer context

unfoldable pub assign_transfer :
    (ℕ → PackageSnapshot)
    → (new_id : ℕ) → Actor
    → (id transfer_id : ℕ) → ClientContext
    → Tx (Unit {0})
unfolding find_trip find_vehicle is_active_assignment
assign_transfer snapshot new_id actor id transfer_id context = do
  current ← find_trip id
  vehicle ← find_vehicle current.vehicle_id
  assert_trip_configurable current.status
  found ← gets (transfer_by_id transfer_id)
  transfer ← or_throw found (not_found warehouse_transfer_not_found)
  assert_transfer_matches_trip transfer current
  active ← gets (λ s. find_first (is_active_assignment transfer.id) s.trip_transfers)
  assign_unless_active snapshot new_id actor current vehicle transfer context active

-- The assignment of a transfer to a trip, the active one or any.
unfoldable pub is_on_trip : (trip_id transfer_id : ℕ) → LineHaulTripTransfer → Bool
is_on_trip trip_id transfer_id row =
    row.trip_id == trip_id && row.warehouse_transfer_id == transfer_id

unfoldable pub remove_where : ℕ → LineHaulTripTransfer → Bool
remove_where id row = row.id == id && row.is_active

unfoldable pub remove_data : (now actor_id : ℕ) → LineHaulTripTransfer → LineHaulTripTransfer
remove_data now actor_id row = record row {
  is_active = false;
  removed_at = some now;
  removed_by_id = some actor_id;
}

unfoldable pub remove_active :
    Actor → (id transfer_id now : ℕ) → ClientContext → Option LineHaulTripTransfer → Tx (Unit {0})
unfolding is_on_trip remove_where remove_data assignment_audit assignment_entry
remove_active actor id transfer_id now context none = do
  historical ← gets (λ s. find_first (is_on_trip id transfer_id) s.trip_transfers)
  row ← or_throw historical (not_found line_haul_transfer_assignment_not_found)
  pure tt
remove_active actor id transfer_id now context (some assignment) = do
  count ← gets (λ s. count_where (remove_where assignment.id) s.trip_transfers)
  modify (λ s. record s {
    trip_transfers =
        update_many (remove_where assignment.id) (remove_data now actor.id) s.trip_transfers;
  })
  throw_if (count != 1) (conflict line_haul_transfer_concurrent_modification)
  audit (
      assignment_audit actor context "LINE_HAUL_TRANSFER_REMOVED" assignment.id
        (some (assignment_entry id transfer_id true)) (assignment_entry id transfer_id false) none)

unfoldable pub remove_transfer : Actor → (id transfer_id now : ℕ) → ClientContext → Tx (Unit {0})
unfolding find_trip remove_active is_on_trip
remove_transfer actor id transfer_id now context = do
  current ← find_trip id
  assert_trip_configurable current.status
  assignment ←
      gets
        (λ s. find_first (λ row. is_on_trip id transfer_id row && row.is_active) s.trip_transfers)
  remove_active actor id transfer_id now context assignment
