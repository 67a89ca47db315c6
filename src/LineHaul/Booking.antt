-- ===== src/LineHaul/Booking.antt =====
-- The schedule of a trip and its cancellation: setSchedule, unschedule and cancel of
-- LineHaulTripsService (backend/src/modules/line-haul/line-haul-trips.service.ts). The rows of the
-- trip, the driver and the vehicle are locked, so the commands on them run one after another; the
-- rows that a foreign key names are always there.
use project_logictic.Prelude.{
  ℕ, ◌+◌, ◌&&◌, ◌||◌, Bool, true, false, Option, none, some, is_none, List, [], ◌∷◌, find_first,
  count_where, update_many, any_of, ltb,
}
use project_logictic.Prelude.Eq.{◌==◌, ◌!=◌, contains, nat_eq, option_eq}
use project_logictic.Text.{Text}
use project_logictic.Schema.{LineHaulTripStatus, line_haul_trip_status_eq}
use project_logictic.Store.{
  Store, LineHaulTrip, LineHaulVehicle, Tx, pure, throw_if, or_throw, gets, modify, ◌>>=◌, ◌>>◌,
  conflict, not_found, record_not_found, line_haul_trip_not_found,
  line_haul_trip_concurrent_modification, line_haul_driver_schedule_conflict,
  line_haul_vehicle_schedule_conflict,
}
use project_logictic.LineHaul.Policy.{LineHaulDriverCandidate, LineHaulVehicleCandidate}

abbrev pub active_line_haul_trip_statuses : List LineHaulTripStatus
active_line_haul_trip_statuses =
    LineHaulTripStatus.planned ∷ LineHaulTripStatus.ready ∷ LineHaulTripStatus.in_transit ∷ []

abbrev pub executing_line_haul_trip_statuses : List LineHaulTripStatus
executing_line_haul_trip_statuses = LineHaulTripStatus.ready ∷ LineHaulTripStatus.in_transit ∷ []

abbrev pub trip_by_id : ℕ → Store → Option LineHaulTrip
trip_by_id id s = find_first (λ row. row.id == id) s.trips

unfoldable pub find_trip : ℕ → Tx LineHaulTrip
find_trip id = do found ← gets (trip_by_id id); or_throw found (not_found line_haul_trip_not_found)

-- `updateMany` of trips, and `assertTripUpdated`.
unfoldable pub update_trip : (LineHaulTrip → Bool) → (LineHaulTrip → LineHaulTrip) → Tx (Unit {0})
update_trip test change = do
  count ← gets (λ s. count_where test s.trips)
  modify (λ s. record s { trips = update_many test change s.trips })
  throw_if (count != 1) (conflict line_haul_trip_concurrent_modification)

unfoldable pub assert_expected_version : (current expected : ℕ) → Tx (Unit {0})
assert_expected_version current expected =
    throw_if (current != expected) (conflict line_haul_trip_concurrent_modification)

abbrev pub is_before : Option ℕ → ℕ → Bool
is_before none end = false
is_before (some start) end = ltb start end

abbrev pub is_later : Option ℕ → ℕ → Bool
is_later none start = false
is_later (some end) start = ltb start end

-- `scheduleConflictWhere`
unfoldable pub schedule_conflict_where : (start end excluded : ℕ) → LineHaulTrip → Bool
schedule_conflict_where start end excluded row =
    row.id != excluded
    && contains active_line_haul_trip_statuses row.status
    && ((is_before row.scheduled_start_at end && is_later row.scheduled_end_at start)
        || (is_none row.scheduled_start_at
            && contains executing_line_haul_trip_statuses row.status))

unfoldable pub assert_schedule_resources_available : LineHaulTrip → (start end : ℕ) → Tx (Unit {0})
unfolding schedule_conflict_where
assert_schedule_resources_available trip start end = do
  driver_conflict ← gets (λ s.
      any_of
        (λ row. schedule_conflict_where start end trip.id row && row.driver_id == trip.driver_id)
        s.trips)
  throw_if driver_conflict (conflict line_haul_driver_schedule_conflict)
  vehicle_conflict ← gets (λ s.
      any_of
        (λ row. schedule_conflict_where start end trip.id row && row.vehicle_id == trip.vehicle_id)
        s.trips)
  throw_if vehicle_conflict (conflict line_haul_vehicle_schedule_conflict)

-- The driver of a trip with its user.
unfoldable pub driver_candidate : ℕ → Tx LineHaulDriverCandidate
driver_candidate id = do
  drivers ← gets (λ s. find_first (λ row. row.id == id) s.drivers)
  driver ← or_throw drivers record_not_found
  users ← gets (λ s. find_first (λ row. row.id == driver.user_id) s.users)
  user ← or_throw users record_not_found
  pure record {
    status = driver.status;
    capabilities = driver.capabilities;
    user_role = user.role;
    user_status = user.status;
  }

unfoldable pub find_vehicle : ℕ → Tx LineHaulVehicle
find_vehicle id = do
  vehicles ← gets (λ s. find_first (λ row. row.id == id) s.vehicles)
  or_throw vehicles record_not_found

abbrev pub vehicle_candidate : LineHaulVehicle → LineHaulVehicleCandidate
vehicle_candidate vehicle = record {
  status = vehicle.status;
  capacity_weight_grams = vehicle.capacity_weight_grams;
}

pub data ScheduleCommand : Type 0 where
  schedule reschedule : ScheduleCommand

abbrev pub is_schedule : ScheduleCommand → Bool
is_schedule schedule = true
is_schedule reschedule = false

-- The `where` and the `data` of the three updates.
unfoldable pub planned_where : LineHaulTrip → LineHaulTrip → Bool
planned_where trip row =
    row.id == trip.id && row.status == LineHaulTripStatus.planned && row.version == trip.version

unfoldable pub schedule_data : (start end : ℕ) → LineHaulTrip → LineHaulTrip
schedule_data start end row = record row {
  scheduled_start_at = some start;
  scheduled_end_at = some end;
  version = row.version + 1;
}

unfoldable pub unschedule_data : LineHaulTrip → LineHaulTrip
unschedule_data row = record row {
  scheduled_start_at = none;
  scheduled_end_at = none;
  version = row.version + 1;
}

unfoldable pub cancel_where : LineHaulTrip → LineHaulTrip → Bool
cancel_where trip row =
    row.id == trip.id && row.status == trip.status && row.version == trip.version

unfoldable pub cancel_data : (reason : Text) → (now actor_id : ℕ) → LineHaulTrip → LineHaulTrip
cancel_data reason now actor_id row = record row {
  status = LineHaulTripStatus.cancelled;
  cancellation_reason = some reason;
  cancelled_at = some now;
  cancelled_by_id = some actor_id;
  version = row.version + 1;
}
