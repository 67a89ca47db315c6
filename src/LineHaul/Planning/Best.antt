-- ===== src/LineHaul/Planning/Best.antt =====
-- The running list of the planner against its specification: all candidates, sorted, and cut off.
use mathlib.Core.List.{append_assoc, append-nil}
use project_logictic.Prelude.{
  ℕ, ◌≡◌, sym, ap, ◌∙◌, Bool, true, false, List, [], ◌∷◌, ◌++◌, if◌then◌else◌, length,
}
use project_logictic.Prelude.Eq.{nat_eq, option_eq}
use project_logictic.Prelude.Sort.{
  IsOrder, compare_ℕ-IsOrder, or_else-IsOrder, on-IsOrder, flip-IsOrder, sort, take,
}
use project_logictic.Prelude.SortLaws.{sort-take-append_one, take-sort-nil}
use project_logictic.LineHaul.Planning.Rules.{
  PlanningDriver, PlanningVehicle, PlanningTransfer, DepartureWindow, Locale,
  select_transfers_for_capacity, has_driver_conflict, has_vehicle_conflict,
}
use project_logictic.LineHaul.Planning.Score.{
  ScorePlanningInput, Recommendation, compare_recommendations, keep_best, candidate_for,
  try_drivers, try_windows, try_vehicle, try_vehicles,
}

-- `localeCompare` orders codes and ids.
pub record IsLocale (locale : Locale) : Type 0 where
  pub orders_text : IsOrder locale.compare_text
  pub orders_id : IsOrder locale.compare_id

-- The specification: every candidate, in the order in which the loops meet them.
module _ (locale : Locale) (tenths : ℕ → ℕ → ℕ) (input : ScorePlanningInput) where
  abbrev pub driver_candidates :
      PlanningVehicle
      → List PlanningTransfer
      → DepartureWindow
      → List PlanningDriver
      → List Recommendation
  driver_candidates vehicle transfers window [] = []
  driver_candidates vehicle transfers window (driver ∷ drivers) =
      (if has_driver_conflict input.conflicts driver.id window
        then []
        else candidate_for locale tenths input vehicle transfers window driver ∷ [])
      ++ driver_candidates vehicle transfers window drivers

  abbrev pub window_candidates :
      List PlanningDriver
      → PlanningVehicle
      → List PlanningTransfer
      → List DepartureWindow
      → List Recommendation
  window_candidates drivers vehicle transfers [] = []
  window_candidates drivers vehicle transfers (window ∷ windows) =
      (if has_vehicle_conflict input.conflicts vehicle.id window
        then []
        else driver_candidates vehicle transfers window drivers)
      ++ window_candidates drivers vehicle transfers windows

  -- A vehicle that gets no transfer gives no candidate.
  abbrev pub vehicle_candidates :
      List PlanningDriver
      → List DepartureWindow
      → PlanningVehicle
      → List PlanningTransfer
      → List Recommendation
  vehicle_candidates drivers windows vehicle [] = []
  vehicle_candidates drivers windows vehicle (transfer ∷ transfers) =
      window_candidates drivers vehicle (transfer ∷ transfers) windows

  abbrev pub all_candidates :
      List PlanningDriver → List DepartureWindow → List PlanningVehicle → List Recommendation
  all_candidates drivers windows [] = []
  all_candidates drivers windows (vehicle ∷ vehicles) =
      vehicle_candidates drivers windows vehicle
        (select_transfers_for_capacity locale input.transfers vehicle.capacity_weight_grams)
      ++ all_candidates drivers windows vehicles

module _ (locale : Locale) (lawful : IsLocale locale) where
  compare_recommendations-IsOrder : IsOrder (compare_recommendations locale)
  unfolding compare_recommendations
  compare_recommendations-IsOrder =
      or_else-IsOrder
        (flip-IsOrder (on-IsOrder (λ (r : Recommendation). r.score) compare_ℕ-IsOrder))
        (or_else-IsOrder
          (flip-IsOrder
            (on-IsOrder (λ (r : Recommendation). r.capacity_utilization_tenths) compare_ℕ-IsOrder))
          (or_else-IsOrder
            (flip-IsOrder
              (on-IsOrder (λ (r : Recommendation). length r.transfers) compare_ℕ-IsOrder))
            (or_else-IsOrder
              (on-IsOrder (λ (r : Recommendation). r.scheduled_start_at) compare_ℕ-IsOrder)
              (or_else-IsOrder
                (on-IsOrder (λ (r : Recommendation). r.driver.employee_code) lawful.orders_text)
                (or_else-IsOrder
                  (on-IsOrder (λ (r : Recommendation). r.vehicle.vehicle_code) lawful.orders_text)
                  (or_else-IsOrder
                    (on-IsOrder (λ (r : Recommendation). r.driver.id) lawful.orders_id)
                    (on-IsOrder (λ (r : Recommendation). r.vehicle.id) lawful.orders_id)))))))

  -- The best of what has been seen.
  abbrev pub best_of : ℕ → List Recommendation → List Recommendation
  best_of most seen = take most (sort (compare_recommendations locale) seen)

  keep_best-best_of :
      (most : ℕ) (seen : List Recommendation) (candidate : Recommendation)
      → keep_best locale most (best_of most seen) candidate
        ≡ best_of most (seen ++ (candidate ∷ []))
  unfolding keep_best
  keep_best-best_of most seen candidate =
      sort-take-append_one (compare_recommendations locale) compare_recommendations-IsOrder most
        seen candidate

  module _ (tenths : ℕ → ℕ → ℕ) (input : ScorePlanningInput) where
    abbrev pub best : List Recommendation → List Recommendation
    best seen = best_of input.max_recommendations seen

    -- A loop that has met more candidates.
    regroup : (seen a b : List Recommendation) → best ((seen ++ a) ++ b) ≡ best (seen ++ (a ++ b))
    regroup seen a b = ap best (append_assoc seen a b)

    after_driver :
        (conflicted : Bool) (candidate : Recommendation) (seen : List Recommendation)
        → elim conflicted [
          | true ↦ best seen
          | false ↦ keep_best locale input.max_recommendations (best seen) candidate
        ]
          ≡ best (seen ++ (if conflicted then [] else candidate ∷ []))
    after_driver true candidate seen = ap best (sym (append-nil seen))
    after_driver false candidate seen = keep_best-best_of input.max_recommendations seen candidate

    try_drivers-best :
        (vehicle : PlanningVehicle) (transfers : List PlanningTransfer) (window : DepartureWindow)
        (drivers : List PlanningDriver) (seen : List Recommendation)
        → try_drivers locale tenths input vehicle transfers window drivers (best seen)
          ≡ best (seen ++ driver_candidates locale tenths input vehicle transfers window drivers)
    unfolding try_drivers
    try_drivers-best vehicle transfers window [] seen = ap best (sym (append-nil seen))
    try_drivers-best vehicle transfers window (driver ∷ drivers) seen =
        let conflicted = has_driver_conflict input.conflicts driver.id window in
        let candidate = candidate_for locale tenths input vehicle transfers window driver in
        let now = if conflicted then [] else candidate ∷ [] in
        ap (try_drivers locale tenths input vehicle transfers window drivers)
          (after_driver conflicted candidate seen)
        ∙ try_drivers-best vehicle transfers window drivers (seen ++ now)
        ∙ regroup seen now (driver_candidates locale tenths input vehicle transfers window drivers)

    after_window :
        (conflicted : Bool) (drivers : List PlanningDriver) (vehicle : PlanningVehicle)
        (transfers : List PlanningTransfer) (window : DepartureWindow) (seen : List Recommendation)
        → elim conflicted [
          | true ↦ best seen
          | false ↦ try_drivers locale tenths input vehicle transfers window drivers (best seen)
        ]
          ≡ best (
              seen
              ++ (if conflicted
                  then []
                  else driver_candidates locale tenths input vehicle transfers window drivers))
    after_window true drivers vehicle transfers window seen = ap best (sym (append-nil seen))
    after_window false drivers vehicle transfers window seen =
        try_drivers-best vehicle transfers window drivers seen

    try_windows-best :
        (drivers : List PlanningDriver) (vehicle : PlanningVehicle)
        (transfers : List PlanningTransfer) (windows : List DepartureWindow)
        (seen : List Recommendation)
        → try_windows locale tenths input drivers vehicle transfers windows (best seen)
          ≡ best (seen ++ window_candidates locale tenths input drivers vehicle transfers windows)
    unfolding try_windows
    try_windows-best drivers vehicle transfers [] seen = ap best (sym (append-nil seen))
    try_windows-best drivers vehicle transfers (window ∷ windows) seen =
        let conflicted = has_vehicle_conflict input.conflicts vehicle.id window in
        let now =
          if conflicted
          then []
          else driver_candidates locale tenths input vehicle transfers window drivers in
        ap (try_windows locale tenths input drivers vehicle transfers windows)
          (after_window conflicted drivers vehicle transfers window seen)
        ∙ try_windows-best drivers vehicle transfers windows (seen ++ now)
        ∙ regroup seen now (window_candidates locale tenths input drivers vehicle transfers windows)

    try_vehicle-best :
        (drivers : List PlanningDriver) (windows : List DepartureWindow) (vehicle : PlanningVehicle)
        (transfers : List PlanningTransfer) (seen : List Recommendation)
        → try_vehicle locale tenths input drivers windows vehicle transfers (best seen)
          ≡ best (seen ++ vehicle_candidates locale tenths input drivers windows vehicle transfers)
    unfolding try_vehicle
    try_vehicle-best drivers windows vehicle [] seen = ap best (sym (append-nil seen))
    try_vehicle-best drivers windows vehicle (transfer ∷ transfers) seen =
        try_windows-best drivers vehicle (transfer ∷ transfers) windows seen

    try_vehicles-best :
        (drivers : List PlanningDriver) (windows : List DepartureWindow)
        (vehicles : List PlanningVehicle) (seen : List Recommendation)
        → try_vehicles locale tenths input drivers windows vehicles (best seen)
          ≡ best (seen ++ all_candidates locale tenths input drivers windows vehicles)
    unfolding try_vehicles
    try_vehicles-best drivers windows [] seen = ap best (sym (append-nil seen))
    try_vehicles-best drivers windows (vehicle ∷ vehicles) seen =
        let transfers =
          select_transfers_for_capacity locale input.transfers vehicle.capacity_weight_grams in
        let now = vehicle_candidates locale tenths input drivers windows vehicle transfers in
        ap (try_vehicles locale tenths input drivers windows vehicles)
          (try_vehicle-best drivers windows vehicle transfers seen)
        ∙ try_vehicles-best drivers windows vehicles (seen ++ now)
        ∙ regroup seen now (all_candidates locale tenths input drivers windows vehicles)

    pub best-nil : best [] ≡ []
    best-nil = take-sort-nil (compare_recommendations locale) input.max_recommendations

    -- All loops, from an empty list.
    pub try_vehicles-best_of :
        (drivers : List PlanningDriver) (windows : List DepartureWindow)
        (vehicles : List PlanningVehicle)
        → try_vehicles locale tenths input drivers windows vehicles []
          ≡ best (all_candidates locale tenths input drivers windows vehicles)
    try_vehicles-best_of drivers windows vehicles =
        ap (try_vehicles locale tenths input drivers windows vehicles) (sym best-nil)
        ∙ try_vehicles-best drivers windows vehicles []
