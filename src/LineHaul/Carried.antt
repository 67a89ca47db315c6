-- ===== src/LineHaul/Carried.antt =====
-- The trip that carries an active assignment of LineHaulTripsService
-- (backend/src/modules/line-haul/line-haul-trips.service.ts) under the planning commands.
use project_logictic.Prelude.{
  ℕ, Bool, true, false, not, ◌||◌, ◌≡◌, ◌++◌, Option, none, some, List, [], ◌∷◌, All, All-append,
  All-map, update_many-All_into, Bool-cases, inl, inr, refl, find_first-passes, update_many-All,
  find_first, update_many, arith,
}
use project_logictic.Prelude.Eq.{◌==◌, ◌!=◌, contains, nat_eq}
use project_logictic.Text.{Text, trim}
use project_logictic.Schema.{LineHaulTripStatus, line_haul_trip_status_eq}
use project_logictic.Store.{Store, LineHaulTrip, LineHaulTripTransfer, after-keeps}
use project_logictic.LineHaul.Policy.{configurable_line_haul_trip_statuses}
use project_logictic.LineHaul.Capacity.{PackageSnapshot}
use project_logictic.LineHaul.Booking.{
  trip_by_id, planned_where, schedule_data, unschedule_data, cancel_where, cancel_data,
}
use project_logictic.LineHaul.Commands.{release_where, release_data}
use project_logictic.LineHaul.Loading.{new_assignment, remove_where, remove_data}
use project_logictic.LineHaul.Effects.{set_schedule-leaves, unschedule-leaves, cancel-leaves}
use project_logictic.LineHaul.LoadingKeeps.{assign_transfer-leaves, remove_transfer-leaves}
use project_logictic.LineHaul.Service.{
  Command, book, give_back, give_up, load, unload, execute, execute_all,
}

-- A trip that is there and is not cancelled.
abbrev pub goes_on : Option LineHaulTrip → Bool
goes_on none = false
goes_on (some trip) = trip.status != LineHaulTripStatus.cancelled

-- An assignment is over, or the trip with its id goes on.
abbrev pub is_carried : List LineHaulTrip → LineHaulTripTransfer → Bool
is_carried trips row =
    not row.is_active || goes_on (find_first (λ trip. trip.id == row.trip_id) trips)

abbrev pub Carried : List LineHaulTrip → List LineHaulTripTransfer → Type 0
Carried trips assignments = All (λ row. is_carried trips row ≡ true) assignments

-- A change that leaves ids, and goes on where the row did, leaves whether a trip goes on.
goes_on-update_many :
    (test : LineHaulTrip → Bool) (change : LineHaulTrip → LineHaulTrip) (k : ℕ)
    (trips : List LineHaulTrip)
    → ((row : LineHaulTrip) → (change row).id ≡ row.id)
    → ((row : LineHaulTrip)
        → test row ≡ true
        → (row.id == k) ≡ true
        → goes_on (some (change row)) ≡ goes_on (some row))
    → goes_on (find_first (λ trip. trip.id == k) (update_many test change trips))
      ≡ goes_on (find_first (λ trip. trip.id == k) trips)
unfolding find_first update_many
goes_on-update_many test change k [] ids same = ground arith
goes_on-update_many test change k (row ∷ trips) ids same =
    ground (arith, ids row, same row, goes_on-update_many test change k trips ids same)

module _ (s : Store) (carried : Carried s.trips s.trip_transfers) where
  -- A change of a planned trip to another schedule.
  rescheduled :
      (current : LineHaulTrip) (change : LineHaulTrip → LineHaulTrip)
      → ((row : LineHaulTrip) → (change row).id ≡ row.id)
      → ((row : LineHaulTrip) → (change row).status ≡ row.status)
      → Carried (update_many (planned_where current) change s.trips) s.trip_transfers
  rescheduled current change ids statuses =
      All-map (λ row. is_carried s.trips row ≡ true)
        (λ row. is_carried (update_many (planned_where current) change s.trips) row ≡ true)
        s.trip_transfers
        (λ row held. ground (
          arith,
          goes_on-update_many (planned_where current) change row.trip_id s.trips ids
              (λ trip _ _. ground (arith, statuses trip)),
        ))
        carried

  cancelled :
      (current : LineHaulTrip) (id : ℕ) (reason : Text) (now actor_id : ℕ)
      → trip_by_id id s ≡ some current
      → Carried
          (update_many (cancel_where current) (cancel_data reason now actor_id) s.trips)
          (update_many (release_where id) (release_data now actor_id) s.trip_transfers)
  unfolding cancel_where cancel_data release_where release_data
  cancelled current id reason now actor_id found =
      update_many-All_into (λ row. is_carried s.trips row ≡ true)
        (λ row.
          is_carried (update_many (cancel_where current) (cancel_data reason now actor_id) s.trips)
            row
          ≡ true)
        (release_where id) (release_data now actor_id) s.trip_transfers
        (λ row passes held. ground arith)
        (λ row fails held. elim (Bool-cases (row.is_active)) [
          | inr over ↦ ground arith
          | inl active ↦ ground (
            arith,
            goes_on-update_many (cancel_where current) (cancel_data reason now actor_id) row.trip_id
                s.trips (λ trip. refl)
                (λ trip passes same.
                  ground (arith, find_first-passes (λ trip. trip.id == id) s.trips found)),
          )
        ])
        carried

  assigned :
      (new_id transfer_id actor_id : ℕ) (current : LineHaulTrip)
      → trip_by_id current.id s ≡ some current
      → contains configurable_line_haul_trip_statuses current.status ≡ true
      → Carried s.trips
          (s.trip_transfers ++ (new_assignment new_id current.id transfer_id actor_id ∷ []))
  unfolding new_assignment
  assigned new_id transfer_id actor_id current found unstarted =
      All-append (λ row. is_carried s.trips row ≡ true) s.trip_transfers
        (new_assignment new_id current.id transfer_id actor_id ∷ []) carried
        (rw found (ground arith), tt)

  removed :
      (id now actor_id : ℕ)
      → Carried s.trips (update_many (remove_where id) (remove_data now actor_id) s.trip_transfers)
  unfolding remove_data
  removed id now actor_id =
      update_many-All (λ row. is_carried s.trips row ≡ true) (remove_where id)
        (remove_data now actor_id) s.trip_transfers (λ row passes held. refl) carried

  booked :
      (current : LineHaulTrip) (start end : ℕ)
      → Carried
          (update_many (planned_where current) (schedule_data start end) s.trips)
          s.trip_transfers
  unfolding schedule_data
  booked current start end =
      rescheduled current (schedule_data start end) (λ row. refl) (λ row. refl)

  freed :
      (current : LineHaulTrip)
      → Carried (update_many (planned_where current) unschedule_data s.trips) s.trip_transfers
  unfolding unschedule_data
  freed current = rescheduled current unschedule_data (λ row. refl) (λ row. refl)

  execute-Carried :
      (snapshot : ℕ → PackageSnapshot) (command : Command)
      → Carried (execute snapshot command s).trips (execute snapshot command s).trip_transfers
  unfolding execute
  execute-Carried snapshot (book actor id start end expected_version command context) =
      after-keeps (λ left. Carried left.trips left.trip_transfers) s _ carried
        (set_schedule-leaves s Carried carried actor id start end expected_version command context
          (λ from to _ current _ _ _ _. booked current from to))
  execute-Carried snapshot (give_back actor id expected_version context) =
      after-keeps (λ left. Carried left.trips left.trip_transfers) s _ carried
        (unschedule-leaves s Carried carried actor id expected_version context
          (λ current _ _. freed current))
  execute-Carried snapshot (give_up actor id reason now context) =
      after-keeps (λ left. Carried left.trips left.trip_transfers) s _ carried
        (cancel-leaves s Carried carried actor id reason now context
          (λ current found _ _. cancelled current id (trim reason) now actor.id found))
  execute-Carried snapshot (load new_id actor id transfer_id context) =
      after-keeps (λ left. Carried left.trips left.trip_transfers) s _ carried
        (assign_transfer-leaves s Carried carried
          (λ new transfer assigner current found unstarted _.
            assigned new transfer assigner current found unstarted)
          removed snapshot new_id actor id transfer_id context)
  execute-Carried snapshot (unload actor id transfer_id now context) =
      after-keeps (λ left. Carried left.trips left.trip_transfers) s _ carried
        (remove_transfer-leaves s Carried carried
          (λ new transfer assigner current found unstarted _.
            assigned new transfer assigner current found unstarted)
          removed actor id transfer_id now context)

-- After any planning commands, where it held before, every active assignment is on the manifest of a
-- trip that is there and is not cancelled.
pub execute_all-Carried :
    (snapshot : ℕ → PackageSnapshot) (commands : List Command) (s : Store)
    → Carried s.trips s.trip_transfers
    → Carried
        (execute_all snapshot commands s).trips
        (execute_all snapshot commands s).trip_transfers
unfolding execute_all
execute_all-Carried snapshot [] s carried = carried
execute_all-Carried snapshot (command ∷ commands) s carried =
    execute_all-Carried snapshot commands (execute snapshot command s)
      (execute-Carried s carried snapshot command)
