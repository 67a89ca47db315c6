-- ===== src/LineHaul/Effects.antt =====
-- What setSchedule, unschedule and cancel leave of the trips and their manifests.
use project_logictic.Prelude.{
  ℕ, ◌<◌, true, List, Bool-cases, leb, ◌≡◌, sym, false, some, arith, inl, inr, Option-cases,
  find_first, count_where, update_many, any_of, find_first-passes, ◌&&◌,
}
use mathlib.Core.Path.{subst}
use project_logictic.Prelude.Eq.{◌==◌, contains, nat_eq, nat_beq_iff}
use project_logictic.Text.{Text, trim}
use project_logictic.Schema.{line_haul_trip_status_eq}
use project_logictic.Store.{
  Store, LineHaulTrip, LineHaulTripTransfer, Actor, ClientContext, Ensures,
}
use project_logictic.LineHaul.Policy.{
  cancellable_line_haul_trip_statuses, Date, invalid_date, instant, assert_driver_eligible,
  assert_vehicle_eligible, assert_trip_schedulable, assert_trip_cancellable, assert_schedule_window,
}
use project_logictic.LineHaul.Booking.{
  trip_by_id, find_trip, update_trip, assert_expected_version, assert_schedule_resources_available,
  driver_candidate, find_vehicle, ScheduleCommand, planned_where, schedule_data, unschedule_data,
  cancel_where, cancel_data, schedule_conflict_where,
}
use project_logictic.LineHaul.Commands.{
  book, set_window, set_times, set_schedule, unschedule, cancel, release_where, release_data,
}
use project_logictic.LineHaul.Capacity.{assert_valid_vehicle_capacity}
use project_logictic.LineHaul.Manifest.{Result-cases}

-- The trip that a command has found, by its own id.
pub found_itself :
    (s : Store) (id : ℕ) (current : LineHaulTrip)
    → trip_by_id id s ≡ some current
    → trip_by_id current.id s ≡ some current
found_itself s id current found =
    subst (λ k. trip_by_id k s ≡ some current)
      (sym ((nat_beq_iff current.id id).0 (find_first-passes (λ row. row.id == id) s.trips found)))
      found

module _ (s : Store) (Q : List LineHaulTrip → List LineHaulTripTransfer → Type 0)
    (same : Q s.trips s.trip_transfers) where
  abbrev pub Books : (start end : ℕ) → Type 0
  Books start end =
      (current : LineHaulTrip)
      → trip_by_id current.id s ≡ some current
      → count_where (planned_where current) s.trips ≡ 1
      → any_of
          (λ row.
            schedule_conflict_where start end current.id row && row.driver_id == current.driver_id)
          s.trips
        ≡ false
      → any_of
          (λ row.
            schedule_conflict_where start end current.id row
            && row.vehicle_id == current.vehicle_id)
          s.trips
        ≡ false
      → Q (update_many (planned_where current) (schedule_data start end) s.trips) s.trip_transfers

  book-leaves :
      (actor : Actor) (id start end : ℕ) (command : ScheduleCommand) (context : ClientContext)
      → Books start end
      → Ensures (λ r. Q r.1.trips r.1.trip_transfers) (book actor id start end command context s)
  unfolding book find_trip driver_candidate find_vehicle update_trip assert_trip_schedulable
      assert_driver_eligible assert_vehicle_eligible assert_schedule_resources_available
  book-leaves actor id start end command context books = elim (Option-cases (trip_by_id id s)) [
    | inl missing ↦ ground arith
    | inr (current, e) ↦
        elim (Option-cases (find_first (λ row. row.id == current.driver_id) s.drivers)) [
          | inl missing ↦ ground arith
          | inr (driver, e1) ↦
              elim (Option-cases (find_first (λ row. row.id == driver.user_id) s.users)) [
                | inl missing ↦ ground arith
                | inr (user, e2) ↦
                    elim (Option-cases
                      (find_first (λ row. row.id == current.vehicle_id) s.vehicles)) [
                        | inl missing ↦ ground arith
                        | inr (vehicle, e3) ↦
                            elim (Result-cases
                              (assert_valid_vehicle_capacity vehicle.capacity_weight_grams)) [
                                | inr (x, e4) ↦ ground arith
                                | inl (n, e4) ↦
                                    ground (arith, books current (found_itself s id current e))
                              ]
                      ]
              ]
        ]
  ]

  set_window-leaves :
      (actor : Actor) (id start end expected_version : ℕ) (command : ScheduleCommand)
      (context : ClientContext)
      → Books start end
      → Ensures
          (λ r. Q r.1.trips r.1.trip_transfers)
          (set_window actor id start end expected_version command context s)
  unfolding set_window find_trip assert_trip_schedulable assert_expected_version
  set_window-leaves actor id start end expected_version command context books =
      elim (Option-cases (trip_by_id id s)) [
        | inl missing ↦ ground arith
        | inr (current, e) ↦ ground (arith, book-leaves actor id start end command context books)
      ]

  pub set_schedule-leaves :
      (actor : Actor) (id : ℕ) (start end : Date) (expected_version : ℕ) (command : ScheduleCommand)
      (context : ClientContext)
      → ((from to : ℕ) → from < to → Books from to)
      → Ensures
          (λ r. Q r.1.trips r.1.trip_transfers)
          (set_schedule actor id start end expected_version command context s)
  unfolding set_schedule set_times assert_schedule_window
  set_schedule-leaves actor id invalid_date end expected_version command context books =
      ground arith
  set_schedule-leaves actor id (instant start) invalid_date expected_version command context books =
      ground arith
  set_schedule-leaves actor id (instant start) (instant end) expected_version command context
        books =
      elim (Bool-cases (leb end start)) [
        | inl backwards ↦ ground arith
        | inr forwards ↦ ground (
          arith,
          set_window-leaves actor id start end expected_version command context
              (books start end (ground arith)),
        )
      ]

  pub unschedule-leaves :
      (actor : Actor) (id expected_version : ℕ) (context : ClientContext)
      → ((current : LineHaulTrip)
          → trip_by_id current.id s ≡ some current
          → count_where (planned_where current) s.trips ≡ 1
          → Q (update_many (planned_where current) unschedule_data s.trips) s.trip_transfers)
      → Ensures
          (λ r. Q r.1.trips r.1.trip_transfers)
          (unschedule actor id expected_version context s)
  unfolding unschedule find_trip update_trip assert_trip_schedulable assert_expected_version
  unschedule-leaves actor id expected_version context frees =
      elim (Option-cases (trip_by_id id s)) [
        | inl missing ↦ ground arith
        | inr (current, e) ↦ ground (arith, frees current (found_itself s id current e))
      ]

  pub cancel-leaves :
      (actor : Actor) (id : ℕ) (reason : Text) (now : ℕ) (context : ClientContext)
      → ((current : LineHaulTrip)
          → trip_by_id id s ≡ some current
          → count_where (cancel_where current) s.trips ≡ 1
          → contains cancellable_line_haul_trip_statuses current.status ≡ true
          → Q
              (update_many (cancel_where current) (cancel_data (trim reason) now actor.id) s.trips)
              (update_many (release_where id) (release_data now actor.id) s.trip_transfers))
      → Ensures (λ r. Q r.1.trips r.1.trip_transfers) (cancel actor id reason now context s)
  unfolding cancel find_trip update_trip assert_trip_cancellable
  cancel-leaves actor id reason now context cancels = elim (Option-cases (trip_by_id id s)) [
    | inl missing ↦ ground arith
    | inr (current, e) ↦ ground (arith, cancels current e)
  ]
