-- ===== src/LineHaul/Commands.antt =====
-- The commands setSchedule, unschedule and cancel of LineHaulTripsService
-- (backend/src/modules/line-haul/line-haul-trips.service.ts), each one transaction.
use project_logictic.Prelude.{
  ℕ, ◌+◌, ◌&&◌, Bool, false, not, Option, none, some, is_none, is_some, List, [], ◌∷◌, String,
  update_many,
}
use project_logictic.Prelude.Int.{pos}
use project_logictic.Prelude.Eq.{◌==◌, nat_eq, option_eq}
use project_logictic.Text.{Text, trim}
use project_logictic.Schema.{
  LineHaulTripStatus, line_haul_trip_status_eq, line_haul_trip_status_name,
}
use project_logictic.Store.{
  LineHaulTrip, LineHaulTripTransfer, AuditLog, Json, word, text, date, number, identifier, Actor,
  ClientContext, Tx, pure, throw, throw_if, branch, modify, audit, ◌>>=◌, ◌>>◌, bad_request,
  conflict, line_haul_schedule_invalid, line_haul_trip_already_scheduled,
  line_haul_trip_not_scheduled,
}
use project_logictic.Fees.Table.{or_null}
use project_logictic.LineHaul.Policy.{
  Date, instant, assert_driver_eligible, assert_vehicle_eligible, assert_trip_schedulable,
  assert_trip_cancellable, assert_schedule_window,
}
use project_logictic.LineHaul.Booking.{
  find_trip, update_trip, assert_expected_version, assert_schedule_resources_available,
  driver_candidate, find_vehicle, vehicle_candidate, ScheduleCommand, schedule, reschedule,
  is_schedule, planned_where, schedule_data, unschedule_data, cancel_where, cancel_data,
}

trip_audit :
    Actor
    → ClientContext
    → String
    → ℕ
    → List (String × Json)
    → List (String × Json)
    → Option (List (String × Json))
    → AuditLog
trip_audit actor context action id before after metadata = record {
  actor_id = actor.id;
  actor_role = actor.role;
  action = action;
  entity_type = "LineHaulTrip";
  entity_id = id;
  before = some before;
  after = some after;
  metadata = metadata;
  ip_address = context.ip_address;
  user_agent = context.user_agent;
}

schedule_entry : Option ℕ → Option ℕ → ℕ → List (String × Json)
schedule_entry start end version =
    ("scheduledStartAt", or_null date start)
    ∷ ("scheduledEndAt", or_null date end)
    ∷ ("version", number (pos version))
    ∷ []

trip_resources : LineHaulTrip → List (String × Json)
trip_resources trip =
    ("driverId", identifier trip.driver_id) ∷ ("vehicleId", identifier trip.vehicle_id) ∷ []

schedule_action : ScheduleCommand → String
schedule_action schedule = "LINE_HAUL_TRIP_SCHEDULED"
schedule_action reschedule = "LINE_HAUL_TRIP_RESCHEDULED"

abbrev pub has_schedule : LineHaulTrip → Bool
has_schedule trip = is_some trip.scheduled_start_at && is_some trip.scheduled_end_at

-- From the read under all three locks on.
unfoldable pub book : Actor → (id start end : ℕ) → ScheduleCommand → ClientContext → Tx (Unit {0})
unfolding find_trip update_trip driver_candidate find_vehicle planned_where schedule_data trip_audit
    schedule_entry trip_resources schedule_action
book actor id start end command context = do
  current ← find_trip id
  driver ← driver_candidate current.driver_id
  vehicle ← find_vehicle current.vehicle_id
  assert_trip_schedulable current.status
  assert_driver_eligible driver
  assert_vehicle_eligible (vehicle_candidate vehicle)
  assert_schedule_resources_available current start end
  update_trip (planned_where current) (schedule_data start end)
  audit (
      trip_audit actor context (schedule_action command) id
        (schedule_entry current.scheduled_start_at current.scheduled_end_at current.version)
        (schedule_entry (some start) (some end) (current.version + 1))
        (some (trip_resources current)))

-- `setSchedule` with the times of its window.
unfoldable pub set_window :
    Actor → (id start end expected_version : ℕ) → ScheduleCommand → ClientContext → Tx (Unit {0})
unfolding find_trip assert_expected_version
set_window actor id start end expected_version command context = do
  current ← find_trip id
  assert_trip_schedulable current.status
  branch (current.scheduled_start_at == some start && current.scheduled_end_at == some end)
      (pure tt)
      (do
        throw_if (is_schedule command && has_schedule current)
            (conflict line_haul_trip_already_scheduled)
        throw_if (not (is_schedule command) && not (has_schedule current))
            (conflict line_haul_trip_not_scheduled)
        assert_expected_version current.version expected_version
        book actor id start end command context)

-- After `parseScheduleWindow` both dates are times.
unfoldable pub set_times :
    Actor → ℕ → Date → Date → ℕ → ScheduleCommand → ClientContext → Tx (Unit {0})
set_times actor id (instant start) (instant end) expected_version command context =
    set_window actor id start end expected_version command context
set_times actor id _ _ expected_version command context =
    throw (bad_request line_haul_schedule_invalid)

unfoldable pub set_schedule :
    Actor → ℕ → Date → Date → ℕ → ScheduleCommand → ClientContext → Tx (Unit {0})
unfolding set_times
set_schedule actor id start end expected_version command context = do
  assert_schedule_window start end
  set_times actor id start end expected_version command context

unfoldable pub unschedule : Actor → (id expected_version : ℕ) → ClientContext → Tx (Unit {0})
unfolding find_trip assert_expected_version update_trip planned_where unschedule_data trip_audit
    schedule_entry trip_resources
unschedule actor id expected_version context = do
  current ← find_trip id
  assert_trip_schedulable current.status
  branch (is_none current.scheduled_start_at && is_none current.scheduled_end_at) (pure tt) (do
    assert_expected_version current.version expected_version
    update_trip (planned_where current) unschedule_data
    audit (
        trip_audit actor context "LINE_HAUL_TRIP_UNSCHEDULED" id
          (schedule_entry current.scheduled_start_at current.scheduled_end_at current.version)
          (schedule_entry none none (current.version + 1)) (some (trip_resources current))))

-- The manifest of a cancelled trip is released.
unfoldable pub release_where : ℕ → LineHaulTripTransfer → Bool
release_where trip_id row = row.trip_id == trip_id && row.is_active

unfoldable pub release_data : (now actor_id : ℕ) → LineHaulTripTransfer → LineHaulTripTransfer
release_data now actor_id row = record row {
  is_active = false;
  removed_at = some now;
  removed_by_id = some actor_id;
}

unfoldable pub cancel :
    Actor → (id : ℕ) → (reason : Text) → (now : ℕ) → ClientContext → Tx (Unit {0})
unfolding find_trip update_trip cancel_where cancel_data release_where release_data trip_audit
cancel actor id reason now context = do
  current ← find_trip id
  branch (current.status == LineHaulTripStatus.cancelled) (pure tt) (do
    assert_trip_cancellable current.status
    update_trip (cancel_where current) (cancel_data (trim reason) now actor.id)
    modify (λ s. record s {
      trip_transfers = update_many (release_where id) (release_data now actor.id) s.trip_transfers;
    })
    audit (
        trip_audit actor context "LINE_HAUL_TRIP_CANCELLED" id
          (("status", word (line_haul_trip_status_name current.status))
            ∷ ("version", number (pos current.version))
            ∷ [])
          (("status", word "CANCELLED")
            ∷ ("cancellationReason", text (trim reason))
            ∷ ("version", number (pos (current.version + 1)))
            ∷ [])
          none))
