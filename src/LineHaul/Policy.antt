-- ===== src/LineHaul/Policy.antt =====
-- LineHaulPolicy (backend/src/modules/line-haul/line-haul.policy.ts): who may drive, what may carry,
-- and which command a trip takes in which status.
use project_logictic.Prelude.{ℕ, ◌||◌, not, Option, none, some, List, [], ◌∷◌, leb}
use project_logictic.Prelude.Int.{ℤ}
use project_logictic.Prelude.Eq.{◌==◌, ◌!=◌, contains, nat_eq}
use project_logictic.Schema.{
  UserRole, user_role_eq, UserStatus, user_status_eq, DriverStatus, driver_status_eq,
  DriverCapability, driver_capability_eq, LineHaulVehicleStatus, line_haul_vehicle_status_eq,
  LineHaulTripStatus, line_haul_trip_status_eq, WarehouseTransferStatus,
  warehouse_transfer_status_eq,
}
use project_logictic.Store.{
  LineHaulTrip, WarehouseTransfer, Result, ok, err, Tx, pure, throw, throw_if, ◌>>◌, bad_request,
  conflict, line_haul_same_warehouse, line_haul_driver_inactive, line_haul_capability_required,
  line_haul_vehicle_not_available, line_haul_trip_not_configurable, line_haul_trip_not_schedulable,
  line_haul_schedule_invalid, line_haul_schedule_range_invalid, line_haul_schedule_required,
  line_haul_trip_not_prepareable, line_haul_trip_not_dispatchable, line_haul_trip_not_arrivable,
  line_haul_trip_not_cancellable, line_haul_transfer_route_mismatch, warehouse_transfer_not_pending,
}
use project_logictic.LineHaul.Capacity.{assert_valid_vehicle_capacity}

pub record LineHaulDriverCandidate : Type 0 where
  pub status : DriverStatus
  pub capabilities : List DriverCapability
  pub user_role : UserRole
  pub user_status : UserStatus

pub record LineHaulVehicleCandidate : Type 0 where
  pub status : LineHaulVehicleStatus
  pub capacity_weight_grams : Option ℤ

-- A `Date`: a time, or an invalid date, whose time is NaN.
pub data Date : Type 0 where
  invalid_date : Date
  instant : (time : ℕ) → Date

-- The schedule of a trip, whose columns may be null.
pub record Schedule : Type 0 where
  pub scheduled_start_at : Option Date
  pub scheduled_end_at : Option Date

unfoldable pub assert_distinct_warehouses : ℕ → ℕ → Tx (Unit {0})
assert_distinct_warehouses origin destination =
    throw_if (origin == destination) (bad_request line_haul_same_warehouse)

unfoldable pub assert_driver_eligible : LineHaulDriverCandidate → Tx (Unit {0})
assert_driver_eligible driver = do
  throw_if
      (driver.user_role != UserRole.driver
        || driver.user_status != UserStatus.active
        || driver.status == DriverStatus.suspended)
      (conflict line_haul_driver_inactive)
  throw_if (not (contains driver.capabilities DriverCapability.line_haul))
      (conflict line_haul_capability_required)

-- The exception of a check that keeps no state.
abbrev pub checked : Result ℕ → Tx (Unit {0})
checked (ok n) = pure tt
checked (err e) = throw e

unfoldable pub assert_vehicle_eligible : LineHaulVehicleCandidate → Tx (Unit {0})
unfolding assert_valid_vehicle_capacity
assert_vehicle_eligible vehicle = do
  throw_if (vehicle.status != LineHaulVehicleStatus.available)
      (conflict line_haul_vehicle_not_available)
  checked (assert_valid_vehicle_capacity vehicle.capacity_weight_grams)

abbrev pub configurable_line_haul_trip_statuses : List LineHaulTripStatus
configurable_line_haul_trip_statuses = LineHaulTripStatus.planned ∷ []

abbrev pub cancellable_line_haul_trip_statuses : List LineHaulTripStatus
cancellable_line_haul_trip_statuses = LineHaulTripStatus.planned ∷ LineHaulTripStatus.ready ∷ []

unfoldable pub assert_trip_configurable : LineHaulTripStatus → Tx (Unit {0})
assert_trip_configurable status =
    throw_if (not (contains configurable_line_haul_trip_statuses status))
      (conflict line_haul_trip_not_configurable)

unfoldable pub assert_trip_schedulable : LineHaulTripStatus → Tx (Unit {0})
assert_trip_schedulable status =
    throw_if (status != LineHaulTripStatus.planned) (conflict line_haul_trip_not_schedulable)

unfoldable pub assert_schedule_window : Date → Date → Tx (Unit {0})
assert_schedule_window (instant start) (instant end) =
    throw_if (leb end start) (bad_request line_haul_schedule_range_invalid)
assert_schedule_window _ _ = throw (bad_request line_haul_schedule_invalid)

unfoldable pub schedule_window : Option Date → Option Date → Tx (Unit {0})
unfolding assert_schedule_window
schedule_window none end = throw (conflict line_haul_schedule_required)
schedule_window (some start) none = throw (conflict line_haul_schedule_required)
schedule_window (some start) (some end) = assert_schedule_window start end

unfoldable pub assert_schedule_present : Schedule → Tx (Unit {0})
unfolding schedule_window
assert_schedule_present trip = schedule_window trip.scheduled_start_at trip.scheduled_end_at

unfoldable pub assert_trip_prepareable : LineHaulTripStatus → Tx (Unit {0})
assert_trip_prepareable status =
    throw_if (status != LineHaulTripStatus.planned) (conflict line_haul_trip_not_prepareable)

unfoldable pub assert_trip_dispatchable : LineHaulTripStatus → Tx (Unit {0})
assert_trip_dispatchable status =
    throw_if (status != LineHaulTripStatus.ready) (conflict line_haul_trip_not_dispatchable)

unfoldable pub assert_trip_arrivable : LineHaulTripStatus → Tx (Unit {0})
assert_trip_arrivable status =
    throw_if (status != LineHaulTripStatus.in_transit) (conflict line_haul_trip_not_arrivable)

unfoldable pub assert_trip_cancellable : LineHaulTripStatus → Tx (Unit {0})
assert_trip_cancellable status =
    throw_if (not (contains cancellable_line_haul_trip_statuses status))
      (conflict line_haul_trip_not_cancellable)

unfoldable pub assert_transfer_matches_trip : WarehouseTransfer → LineHaulTrip → Tx (Unit {0})
assert_transfer_matches_trip transfer trip = do
  throw_if (transfer.status != WarehouseTransferStatus.pending)
      (conflict warehouse_transfer_not_pending)
  throw_if
      (transfer.from_warehouse_id != trip.origin_warehouse_id
        || transfer.to_warehouse_id != trip.destination_warehouse_id)
      (conflict line_haul_transfer_route_mismatch)
