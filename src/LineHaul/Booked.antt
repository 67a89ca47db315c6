-- ===== src/LineHaul/Booked.antt =====
-- No driver and no vehicle is booked twice: what holds of the trips.
use project_logictic.Prelude.{
  ℕ, ◌+◌, ◌≡◌, ◌≤◌, ◌&&◌, Bool, true, false, Option, some, List, [], ◌∷◌, arith, All, find_first,
  count_where, update_many, any_of, count_where-update_one, only_one_passes, as_number, ltb, leb,
  count_where-update_many_le, ap, sym, Bool-cases, inl, inr, ◌∙◌, Option-cases,
}
use mathlib.Core.Path.{subst}
use project_logictic.Prelude.Eq.{◌==◌, contains, nat_eq}
use project_logictic.Schema.{line_haul_trip_status_eq}
use project_logictic.Store.{LineHaulTrip}
use project_logictic.LineHaul.Booking.{active_line_haul_trip_statuses, schedule_conflict_where}

-- A time lies in the window of a trip.
abbrev pub covers : Option ℕ → Option ℕ → ℕ → Bool
covers (some start) (some end) time = leb start time && ltb time end
covers _ _ time = false

-- A trip that is not over takes its driver, or its vehicle, at a time.
abbrev pub is_busy : (LineHaulTrip → ℕ) → (resource time : ℕ) → LineHaulTrip → Bool
is_busy resource_of resource time row =
    resource_of row == resource
    && contains active_line_haul_trip_statuses row.status
    && covers row.scheduled_start_at row.scheduled_end_at time

abbrev pub BookedOnce : (LineHaulTrip → ℕ) → List LineHaulTrip → Type 0
BookedOnce resource_of trips =
    (resource time : ℕ) → count_where (is_busy resource_of resource time) trips ≤ 1

pub record Booked (trips : List LineHaulTrip) : Type 0 where
  pub drivers : BookedOnce (λ trip. trip.driver_id) trips
  pub vehicles : BookedOnce (λ trip. trip.vehicle_id) trips
  pub unique : (id : ℕ) → count_where (λ row. row.id == id) trips ≤ 1

other_idle :
    (resource_of : LineHaulTrip → ℕ) (resource start end time id : ℕ) (row : LineHaulTrip)
    → leb start time ≡ true
    → ltb time end ≡ true
    → (row.id == id) ≡ false
    → (schedule_conflict_where start end id row && resource_of row == resource) ≡ false
    → is_busy resource_of resource time row ≡ false
unfolding schedule_conflict_where
other_idle resource_of resource start end time id row from to other free =
    elim (Option-cases row.scheduled_start_at) [
      | inl missing ↦ ground arith
      | inr (s, e) ↦ elim (Option-cases row.scheduled_end_at) [
        | inl missing ↦ ground arith
        | inr (t, e') ↦ ground arith
      ]
    ]

-- Where no other trip conflicts with a window, none but the trip itself takes the resource in it.
no_other :
    (resource_of : LineHaulTrip → ℕ) (current : LineHaulTrip) (start end time : ℕ)
    (trips : List LineHaulTrip)
    → leb start time ≡ true
    → ltb time end ≡ true
    → is_busy resource_of (resource_of current) time current ≡ false
    → All (λ row. (row.id == current.id) ≡ true → row ≡ current) trips
    → any_of
        (λ row.
          schedule_conflict_where start end current.id row
          && resource_of row == resource_of current)
        trips
      ≡ false
    → count_where (is_busy resource_of (resource_of current) time) trips ≡ 0
unfolding count_where any_of schedule_conflict_where
no_other resource_of current start end time [] from to idle only free = omega arith
no_other resource_of current start end time (row ∷ rows) from to idle only free =
    elim (Bool-cases (row.id == current.id)) [
      | inl same ↦
          let e : is_busy resource_of (resource_of current) time row ≡ false =
            ap (is_busy resource_of (resource_of current) time) (only.0 same) ∙ idle in
          let rest = no_other resource_of current start end time rows from to idle only.1 in
          ground arith
      | inr other ↦
          let e =
            other_idle resource_of (resource_of current) start end time current.id row from to
              other in
          let rest = no_other resource_of current start end time rows from to idle only.1 in
          ground arith
    ]

-- The resource and the window of a trip that takes a resource at a time.
busy_window :
    (resource_of : LineHaulTrip → ℕ) (resource start end time : ℕ) (row : LineHaulTrip)
    → row.scheduled_start_at ≡ some start
    → row.scheduled_end_at ≡ some end
    → is_busy resource_of resource time row ≡ true
    → (resource_of row ≡ resource) × (leb start time ≡ true) × (ltb time end ≡ true)
busy_window resource_of resource start end time row starts ends busy = ground arith

module _ (trips : List LineHaulTrip)
    (unique : (id : ℕ) → count_where (λ row. row.id == id) trips ≤ 1) (current : LineHaulTrip)
    (found : find_first (λ row. row.id == current.id) trips ≡ some current)
    (test : LineHaulTrip → Bool) (change : LineHaulTrip → LineHaulTrip)
    (guard : (row : LineHaulTrip) → test row ≡ true → (row.id == current.id) ≡ true)
    (one : count_where test trips ≡ 1) where
  only_current : All (λ row. (row.id == current.id) ≡ true → row ≡ current) trips
  only_current =
      only_one_passes (λ row. row.id == current.id) trips current (unique current.id) found

  -- The trip is changed: it takes no time that another trip has.
  move-BookedOnce :
      (resource_of : LineHaulTrip → ℕ)
      → BookedOnce resource_of trips
      → ((resource time : ℕ)
          → is_busy resource_of resource time (change current) ≡ true
          → is_busy resource_of resource time current ≡ false
          → count_where (is_busy resource_of resource time) trips ≡ 0)
      → BookedOnce resource_of (update_many test change trips)
  move-BookedOnce resource_of booked free resource time =
      let p : LineHaulTrip → Bool = is_busy resource_of resource time in
      let moved =
        count_where-update_one p (λ row. (row.id == current.id) ≡ true → row ≡ current) test change
          (as_number (p (change current))) (as_number (p current)) trips
          (λ row passes same.
            subst
              (λ r.
                as_number (p r) + as_number (p (change current))
                ≡ as_number (p (change r)) + as_number (p current))
              (sym (same (guard row passes))) (omega arith))
          only_current one in
      ground (arith, booked resource time, free resource time)

  unique_after :
      (k : ℕ)
      → ((row : LineHaulTrip) → (change row).id ≡ row.id)
      → count_where (λ row. row.id == k) (update_many test change trips) ≤ 1
  unique_after k same = omega (
    arith,
    unique k,
    count_where-update_many_le (λ row. row.id == k) test change trips
        (λ row _ passes. rw (← same row) passes),
  )

  -- A trip that gives its time back.
  pub free-Booked :
      Booked trips
      → ((row : LineHaulTrip) → (change row).id ≡ row.id)
      → ((resource_of : LineHaulTrip → ℕ) (resource time : ℕ)
          → is_busy resource_of resource time (change current) ≡ false)
      → Booked (update_many test change trips)
  free-Booked booked same idle = record {
    drivers =
        move-BookedOnce (λ trip. trip.driver_id) booked.drivers
          (λ resource time busy _.
            absurd (ground (arith, idle (λ trip. trip.driver_id) resource time)));
    vehicles =
        move-BookedOnce (λ trip. trip.vehicle_id) booked.vehicles
          (λ resource time busy _.
            absurd (ground (arith, idle (λ trip. trip.vehicle_id) resource time)));
    unique = λ k. unique_after k same;
  }

  window_free :
      (resource_of : LineHaulTrip → ℕ) (resource start end time : ℕ)
      → resource_of (change current) ≡ resource_of current
      → (change current).scheduled_start_at ≡ some start
      → (change current).scheduled_end_at ≡ some end
      → any_of
          (λ row.
            schedule_conflict_where start end current.id row
            && resource_of row == resource_of current)
          trips
        ≡ false
      → is_busy resource_of resource time (change current) ≡ true
      → is_busy resource_of resource time current ≡ false
      → count_where (is_busy resource_of resource time) trips ≡ 0
  window_free resource_of resource start end time kept starts ends free busy idle =
      let (taken, from, to) =
        busy_window resource_of resource start end time (change current) starts ends busy in
      let same : resource_of current ≡ resource = sym kept ∙ taken in
      subst (λ r. count_where (is_busy resource_of r time) trips ≡ 0) same
        (no_other resource_of current start end time trips from to
          (subst (λ r. is_busy resource_of r time current ≡ false) (sym same) idle) only_current
          free)

  -- A trip that is booked for a window which no other trip has.
  pub book-Booked :
      (start end : ℕ)
      → Booked trips
      → ((row : LineHaulTrip)
          → ((change row).id ≡ row.id)
            × ((change row).driver_id ≡ row.driver_id)
            × ((change row).vehicle_id ≡ row.vehicle_id))
      → ((change current).scheduled_start_at ≡ some start)
      → ((change current).scheduled_end_at ≡ some end)
      → any_of
          (λ row.
            schedule_conflict_where start end current.id row && row.driver_id == current.driver_id)
          trips
        ≡ false
      → any_of
          (λ row.
            schedule_conflict_where start end current.id row
            && row.vehicle_id == current.vehicle_id)
          trips
        ≡ false
      → Booked (update_many test change trips)
  book-Booked start end booked same starts ends drivers_free vehicles_free = record {
    drivers =
        move-BookedOnce (λ trip. trip.driver_id) booked.drivers
          (λ resource time busy idle.
            window_free (λ trip. trip.driver_id) resource start end time
              (let (_, d, v) = same current in d) starts ends drivers_free busy idle);
    vehicles =
        move-BookedOnce (λ trip. trip.vehicle_id) booked.vehicles
          (λ resource time busy idle.
            window_free (λ trip. trip.vehicle_id) resource start end time
              (let (_, d, v) = same current in v) starts ends vehicles_free busy idle);
    unique = λ k. unique_after k (λ row. let (id, _, _) = same row in id);
  }
