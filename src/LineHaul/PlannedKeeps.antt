-- ===== src/LineHaul/PlannedKeeps.antt =====
-- setSchedule, unschedule and cancel keep what holds of planning.
use project_logictic.Prelude.{
  ℕ, ◌≡◌, refl, false, some, arith, count_where, update_many, any_of, ◌&&◌,
}
use project_logictic.Prelude.Eq.{◌==◌, nat_eq}
use project_logictic.Text.{Text, trim}
use project_logictic.Store.{Store, LineHaulTrip, Actor, ClientContext, Ensures}
use project_logictic.LineHaul.Policy.{Date}
use project_logictic.LineHaul.Booking.{
  trip_by_id, ScheduleCommand, planned_where, schedule_data, unschedule_data, cancel_where,
  cancel_data, schedule_conflict_where,
}
use project_logictic.LineHaul.Commands.{
  set_schedule, unschedule, cancel, release_where, release_data,
}
use project_logictic.LineHaul.Effects.{
  found_itself, set_schedule-leaves, unschedule-leaves, cancel-leaves,
}
use project_logictic.LineHaul.Booked.{free-Booked, book-Booked}
use project_logictic.LineHaul.Planned.{Planned, IsPlanned, trips-Planned, release-Planned}

module _ (s : Store) (planned : IsPlanned s) where
  booked_now :
      (current : LineHaulTrip) (start end : ℕ)
      → trip_by_id current.id s ≡ some current
      → count_where (planned_where current) s.trips ≡ 1
      → any_of
          (λ row.
            schedule_conflict_where start end current.id row && row.driver_id == current.driver_id)
          s.trips
        ≡ false
      → any_of
          (λ row.
            schedule_conflict_where start end current.id row
            && row.vehicle_id == current.vehicle_id)
          s.trips
        ≡ false
      → Planned
          (update_many (planned_where current) (schedule_data start end) s.trips)
          s.trip_transfers
  unfolding planned_where schedule_data
  booked_now current start end found one drivers_free vehicles_free =
      trips-Planned s.trips s.trip_transfers planned _ (
        book-Booked s.trips planned.booked.unique current found (planned_where current)
          (schedule_data start end) (λ row passes. ground arith) one start end planned.booked
          (λ row. (refl, refl, refl)) refl refl drivers_free vehicles_free)

  freed :
      (current : LineHaulTrip)
      → trip_by_id current.id s ≡ some current
      → count_where (planned_where current) s.trips ≡ 1
      → Planned (update_many (planned_where current) unschedule_data s.trips) s.trip_transfers
  unfolding planned_where unschedule_data
  freed current found one = trips-Planned s.trips s.trip_transfers planned _ (
      free-Booked s.trips planned.booked.unique current found (planned_where current)
        unschedule_data (λ row passes. ground arith) one planned.booked (λ row. refl)
        (λ resource_of resource time. ground arith))

  cancelled :
      (current : LineHaulTrip) (id : ℕ) (reason : Text) (now actor_id : ℕ)
      → trip_by_id current.id s ≡ some current
      → count_where (cancel_where current) s.trips ≡ 1
      → Planned
          (update_many (cancel_where current) (cancel_data reason now actor_id) s.trips)
          (update_many (release_where id) (release_data now actor_id) s.trip_transfers)
  unfolding cancel_where cancel_data
  cancelled current id reason now actor_id found one =
      release-Planned s.trips s.trip_transfers planned _ id now actor_id (
        free-Booked s.trips planned.booked.unique current found (cancel_where current)
          (cancel_data reason now actor_id) (λ row passes. ground arith) one planned.booked
          (λ row. refl) (λ resource_of resource time. ground arith))

  -- `setSchedule` keeps it.
  pub set_schedule-keeps :
      (actor : Actor) (id : ℕ) (start end : Date) (expected_version : ℕ) (command : ScheduleCommand)
      (context : ClientContext)
      → Ensures
          (λ r. IsPlanned r.1)
          (set_schedule actor id start end expected_version command context s)
  set_schedule-keeps actor id start end expected_version command context =
      set_schedule-leaves s Planned planned actor id start end expected_version command context
        (λ from to forwards current. booked_now current from to)

  -- `unschedule` keeps it.
  pub unschedule-keeps :
      (actor : Actor) (id expected_version : ℕ) (context : ClientContext)
      → Ensures (λ r. IsPlanned r.1) (unschedule actor id expected_version context s)
  unschedule-keeps actor id expected_version context =
      unschedule-leaves s Planned planned actor id expected_version context freed

  -- `cancel` keeps it.
  pub cancel-keeps :
      (actor : Actor) (id : ℕ) (reason : Text) (now : ℕ) (context : ClientContext)
      → Ensures (λ r. IsPlanned r.1) (cancel actor id reason now context s)
  cancel-keeps actor id reason now context =
      cancel-leaves s Planned planned actor id reason now context (λ current found one _.
        cancelled current id (trim reason) now actor.id (found_itself s id current found) one)
