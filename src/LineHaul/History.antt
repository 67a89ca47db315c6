-- ===== src/LineHaul/History.antt =====
-- The history of each trip under the planning commands: the steps of its state machine.
use project_logictic.Prelude.{
  ℕ, Option, All, Pointwise-All, ◌+◌, ◌≡◌, ◌<◌, Bool, true, none, some, List, [], ◌∷◌, arith,
  Pointwise, Pointwise-refl, Pointwise-trans, update_many-Pointwise, update_many,
}
use project_logictic.Prelude.Eq.{contains, nat_eq}
use project_logictic.Text.{Text, trim}
use project_logictic.Schema.{LineHaulTripStatus, line_haul_trip_status_eq}
use project_logictic.Store.{Store, LineHaulTrip, LineHaulTripTransfer, after-keeps}
use project_logictic.LineHaul.Policy.{cancellable_line_haul_trip_statuses}
use project_logictic.LineHaul.Capacity.{PackageSnapshot}
use project_logictic.LineHaul.Booking.{
  planned_where, schedule_data, unschedule_data, cancel_where, cancel_data,
}
use project_logictic.LineHaul.Effects.{set_schedule-leaves, unschedule-leaves, cancel-leaves}
use project_logictic.LineHaul.LoadingKeeps.{assign_transfer-leaves, remove_transfer-leaves}
use project_logictic.LineHaul.Service.{
  Command, book, give_back, give_up, load, unload, execute, execute_all,
}

-- The statuses in which a trip can be given up.
pub data IsOpen : LineHaulTripStatus → Type 0 where
  as_planned : IsOpen LineHaulTripStatus.planned
  as_ready : IsOpen LineHaulTripStatus.ready

-- One step of a trip. Each counts its version up, and leaves its route, driver and vehicle.
pub data Moves (trip : LineHaulTrip) : LineHaulTrip → Type 0 where
  schedule :
      (start end : ℕ)
      → start < end
      → trip.status ≡ LineHaulTripStatus.planned
      → Moves trip (record trip {
        scheduled_start_at = some start;
        scheduled_end_at = some end;
        version = trip.version + 1;
      })
  unschedule :
      trip.status ≡ LineHaulTripStatus.planned
      → Moves trip (record trip {
        scheduled_start_at = none;
        scheduled_end_at = none;
        version = trip.version + 1;
      })
  cancel :
      (reason : Text) (now actor_id : ℕ)
      → IsOpen trip.status
      → Moves trip (record trip {
        status = LineHaulTripStatus.cancelled;
        cancellation_reason = some reason;
        cancelled_at = some now;
        cancelled_by_id = some actor_id;
        version = trip.version + 1;
      })

-- The steps that lead from one state of a trip to another.
pub data Reaches (trip : LineHaulTrip) : LineHaulTrip → Type 0 where
  here : Reaches trip trip
  then : {a b : LineHaulTrip} → Reaches trip a → Moves a b → Reaches trip b

Reaches-trans : (a b c : LineHaulTrip) → Reaches a b → Reaches b c → Reaches a c
Reaches-trans a b c r here = r
Reaches-trans a b c r (then q m) = then (Reaches-trans a b _ r q) m

schedule_step :
    (current : LineHaulTrip) (start end : ℕ) (row : LineHaulTrip)
    → start < end
    → planned_where current row ≡ true
    → Moves row (schedule_data start end row)
unfolding planned_where schedule_data
schedule_step current start end row forwards passes = schedule start end forwards (ground arith)

unschedule_step :
    (current row : LineHaulTrip)
    → planned_where current row ≡ true
    → Moves row (unschedule_data row)
unfolding planned_where unschedule_data
unschedule_step current row passes = unschedule (ground arith)

cancellable-IsOpen :
    (status : LineHaulTripStatus)
    → contains cancellable_line_haul_trip_statuses status ≡ true
    → IsOpen status
cancellable-IsOpen LineHaulTripStatus.planned h = as_planned
cancellable-IsOpen LineHaulTripStatus.ready h = as_ready
cancellable-IsOpen LineHaulTripStatus.in_transit h = cc
cancellable-IsOpen LineHaulTripStatus.arrived h = cc
cancellable-IsOpen LineHaulTripStatus.cancelled h = cc

cancel_step :
    (current : LineHaulTrip) (reason : Text) (now actor_id : ℕ) (row : LineHaulTrip)
    → contains cancellable_line_haul_trip_statuses current.status ≡ true
    → cancel_where current row ≡ true
    → Moves row (cancel_data reason now actor_id row)
unfolding cancel_where cancel_data
cancel_step current reason now actor_id row is_open passes = cancel reason now actor_id (
    cancellable-IsOpen row.status
      (ground (arith, line_haul_trip_status_eq.same_iff row.status current.status)))

module _ (s : Store) where
  -- The trips, related one by one to those before.
  abbrev Follows : List LineHaulTrip → List LineHaulTripTransfer → Type 0
  Follows trips assignments = Pointwise Reaches s.trips trips

  stays : Follows s.trips s.trip_transfers
  stays = Pointwise-refl Reaches (λ trip. here) s.trips

  stepped :
      (test : LineHaulTrip → Bool) (change : LineHaulTrip → LineHaulTrip)
      → ((row : LineHaulTrip) → test row ≡ true → Moves row (change row))
      → Pointwise Reaches s.trips (update_many test change s.trips)
  stepped test change step =
      update_many-Pointwise Reaches (λ trip. here) test change s.trips
        (λ row passes. then here (step row passes))

  pub execute-Follows :
      (snapshot : ℕ → PackageSnapshot) (command : Command)
      → Pointwise Reaches s.trips (execute snapshot command s).trips
  unfolding execute
  execute-Follows snapshot (book actor id start end expected_version command context) =
      after-keeps (λ left. Follows left.trips left.trip_transfers) s _ stays
        (set_schedule-leaves s Follows stays actor id start end expected_version command context
          (λ from to forwards current _ _ _ _.
            stepped (planned_where current) (schedule_data from to)
              (λ row. schedule_step current from to row forwards)))
  execute-Follows snapshot (give_back actor id expected_version context) =
      after-keeps (λ left. Follows left.trips left.trip_transfers) s _ stays
        (unschedule-leaves s Follows stays actor id expected_version context (λ current _ _.
          stepped (planned_where current) unschedule_data (unschedule_step current)))
  execute-Follows snapshot (give_up actor id reason now context) =
      after-keeps (λ left. Follows left.trips left.trip_transfers) s _ stays
        (cancel-leaves s Follows stays actor id reason now context (λ current _ _ is_open.
          stepped (cancel_where current) (cancel_data (trim reason) now actor.id)
            (λ row. cancel_step current (trim reason) now actor.id row is_open)))
  execute-Follows snapshot (load new_id actor id transfer_id context) =
      after-keeps (λ left. Follows left.trips left.trip_transfers) s _ stays
        (assign_transfer-leaves s Follows stays (λ _ _ _ _ _ _ _. stays) (λ _ _ _. stays) snapshot
          new_id actor id transfer_id context)
  execute-Follows snapshot (unload actor id transfer_id now context) =
      after-keeps (λ left. Follows left.trips left.trip_transfers) s _ stays
        (remove_transfer-leaves s Follows stays (λ _ _ _ _ _ _ _. stays) (λ _ _ _. stays) actor id
          transfer_id now context)

-- After any planning commands, the trips are those that were there, in their order, and each has
-- moved by steps of its state machine only: a planned trip gets a schedule that ends after it starts,
-- or loses its schedule, and a planned or ready one is cancelled.
pub execute_all-Reaches :
    (snapshot : ℕ → PackageSnapshot) (commands : List Command) (s : Store)
    → Pointwise Reaches s.trips (execute_all snapshot commands s).trips
unfolding execute_all
execute_all-Reaches snapshot [] s = Pointwise-refl Reaches (λ trip. here) s.trips
execute_all-Reaches snapshot (command ∷ commands) s =
    Pointwise-trans Reaches Reaches-trans s.trips (execute snapshot command s).trips _
      (execute-Follows s snapshot command)
      (execute_all-Reaches snapshot commands (execute snapshot command s))

-- Both ends are there, the start before the end, or none is.
abbrev pub IsWindow : Option ℕ → Option ℕ → Type 0
IsWindow none none = Unit
IsWindow (some start) (some end) = start < end
IsWindow _ _ = ⊥

-- A trip has no schedule, or a whole one that ends after it starts.
abbrev pub IsScheduled : LineHaulTrip → Type 0
IsScheduled trip = IsWindow trip.scheduled_start_at trip.scheduled_end_at

Moves-IsScheduled : (a b : LineHaulTrip) → Moves a b → IsScheduled a → IsScheduled b
Moves-IsScheduled a _ (schedule start end forwards planned) h = forwards
Moves-IsScheduled a _ (unschedule planned) h = tt
Moves-IsScheduled a _ (cancel reason now actor_id is_open) h = h

Reaches-IsScheduled : (a b : LineHaulTrip) → Reaches a b → IsScheduled a → IsScheduled b
Reaches-IsScheduled a _ here h = h
Reaches-IsScheduled a b (then r m) h = Moves-IsScheduled _ b m (Reaches-IsScheduled a _ r h)

-- After any planning commands, where it held before, each trip has no schedule at all, or both of
-- its ends and the start before the end.
pub execute_all-IsScheduled :
    (snapshot : ℕ → PackageSnapshot) (commands : List Command) (s : Store)
    → All IsScheduled s.trips
    → All IsScheduled (execute_all snapshot commands s).trips
execute_all-IsScheduled snapshot commands s =
    Pointwise-All Reaches IsScheduled Reaches-IsScheduled s.trips
      (execute_all snapshot commands s).trips (execute_all-Reaches snapshot commands s)
