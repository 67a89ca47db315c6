-- ===== src/LineHaul/Planning/Score.antt =====
-- `scoreLineHaulPlanning` (backend/src/modules/line-haul/line-haul-planning.policy.ts): every vehicle
-- with every window and driver, of which a running list keeps the best.
use project_logictic.Prelude.{
  ℕ, ◌+◌, true, false, Option, none, some, List, [], ◌∷◌, ◌++◌, ltb, length, sum_by, if◌then◌else◌,
}
use project_logictic.Prelude.Int.{ℤ, pos, ◌-ℤ◌}
use project_logictic.Prelude.Eq.{◌==◌, nat_eq, option_eq}
use project_logictic.Prelude.Sort.{Comparison, or_else, compare_ℕ, sort, drop_last}
use project_logictic.Schema.{RouteMetricMode}
use project_logictic.LineHaul.Planning.Rules.{
  PlanningDriver, PlanningVehicle, PlanningTransfer, PlanningConflict, DepartureWindow, Locale,
  resolve_planning_duration_minutes, build_departure_windows, select_transfers_for_capacity,
  has_driver_conflict, has_vehicle_conflict, PlanningScoreReason, score_reasons,
}

pub record PlanningRouteMetric : Type 0 where
  pub distance_meters : ℕ
  pub duration_seconds : Option ℕ
  pub mode : RouteMetricMode
  pub calculated_at : ℕ

pub record ScorePlanningInput : Type 0 where
  pub origin_warehouse_id : ℕ
  pub destination_warehouse_id : ℕ
  pub earliest_start_at : ℕ
  pub latest_end_at : ℕ
  pub drivers : List PlanningDriver
  pub vehicles : List PlanningVehicle
  pub transfers : List PlanningTransfer
  pub conflicts : List PlanningConflict
  pub route : Option PlanningRouteMetric
  pub max_recommendations : ℕ

-- A recommendation before its rank is known. The utilization is in tenths of a percent.
pub record Recommendation : Type 0 where
  pub score : ℕ
  pub origin_warehouse_id : ℕ
  pub destination_warehouse_id : ℕ
  pub driver : PlanningDriver
  pub vehicle : PlanningVehicle
  pub scheduled_start_at : ℕ
  pub scheduled_end_at : ℕ
  pub manifest_weight_grams : ℕ
  pub capacity_utilization_tenths : ℕ
  pub remaining_capacity_weight_grams : ℤ
  pub transfers : List PlanningTransfer
  pub route : Option PlanningRouteMetric
  pub reasons : List PlanningScoreReason

pub record RankedRecommendation : Type 0 where
  pub rank : ℕ
  pub recommendation : Recommendation

unfoldable pub compare_recommendations : Locale → Recommendation → Recommendation → Comparison
compare_recommendations locale left right = or_else (compare_ℕ right.score left.score) (
    or_else (compare_ℕ right.capacity_utilization_tenths left.capacity_utilization_tenths) (
      or_else (compare_ℕ (length right.transfers) (length left.transfers)) (
        or_else (compare_ℕ left.scheduled_start_at right.scheduled_start_at) (
          or_else (locale.compare_text left.driver.employee_code right.driver.employee_code) (
            or_else (locale.compare_text left.vehicle.vehicle_code right.vehicle.vehicle_code) (
              or_else (locale.compare_id left.driver.id right.driver.id)
                (locale.compare_id left.vehicle.id right.vehicle.id)))))))

unfoldable pub compare_drivers : Locale → PlanningDriver → PlanningDriver → Comparison
compare_drivers locale left right =
    or_else (locale.compare_text left.employee_code right.employee_code)
      (locale.compare_id left.id right.id)

unfoldable pub compare_vehicles : Locale → PlanningVehicle → PlanningVehicle → Comparison
compare_vehicles locale left right =
    or_else (locale.compare_text left.vehicle_code right.vehicle_code)
      (locale.compare_id left.id right.id)

-- `input.route?.durationSeconds ?? null` and `input.route?.mode ?? null`.
abbrev pub route_duration : Option PlanningRouteMetric → Option ℕ
route_duration none = none
route_duration (some route) = route.duration_seconds

abbrev pub route_mode : Option PlanningRouteMetric → Option RouteMetricMode
route_mode none = none
route_mode (some route) = some route.mode

-- `push`, `sort`, and `pop` of the one too many.
unfoldable pub keep_best : Locale → ℕ → List Recommendation → Recommendation → List Recommendation
unfolding compare_recommendations
keep_best locale most recommendations candidate =
    let sorted = sort (compare_recommendations locale) (recommendations ++ (candidate ∷ [])) in
    if ltb most (length sorted) then drop_last sorted else sorted

-- The early return where there is nothing to carry.
abbrev pub unless_empty :
    List PlanningTransfer → List RankedRecommendation → List RankedRecommendation
unless_empty [] ranked = []
unless_empty (transfer ∷ transfers) ranked = ranked

module _ (locale : Locale) (tenths : ℕ → ℕ → ℕ) (input : ScorePlanningInput) where
  unfoldable pub candidate_for :
      PlanningVehicle → List PlanningTransfer → DepartureWindow → PlanningDriver → Recommendation
  candidate_for vehicle transfers window driver =
      let weight = sum_by (λ transfer. transfer.load_weight_grams) transfers in
      let utilization = tenths weight vehicle.capacity_weight_grams in
      let reasons =
        score_reasons utilization (length transfers) window.slot_index (route_mode input.route)
          (driver.operating_warehouse_id == some input.origin_warehouse_id) in
      record {
        score = sum_by (λ reason. reason.points) reasons;
        origin_warehouse_id = input.origin_warehouse_id;
        destination_warehouse_id = input.destination_warehouse_id;
        driver = driver;
        vehicle = vehicle;
        scheduled_start_at = window.start;
        scheduled_end_at = window.end;
        manifest_weight_grams = weight;
        capacity_utilization_tenths = utilization;
        remaining_capacity_weight_grams = pos vehicle.capacity_weight_grams -ℤ pos weight;
        transfers = transfers;
        route = input.route;
        reasons = reasons;
      }

  -- The three loops, from the inside.
  unfoldable pub try_drivers :
      PlanningVehicle
      → List PlanningTransfer
      → DepartureWindow
      → List PlanningDriver
      → List Recommendation
      → List Recommendation
  try_drivers vehicle transfers window [] recommendations = recommendations
  try_drivers vehicle transfers window (driver ∷ drivers) recommendations =
      try_drivers vehicle transfers window drivers
        (elim (has_driver_conflict input.conflicts driver.id window) [
          | true ↦ recommendations
          | false ↦
              keep_best locale input.max_recommendations recommendations
                (candidate_for vehicle transfers window driver)
        ])

  unfoldable pub try_windows :
      List PlanningDriver
      → PlanningVehicle
      → List PlanningTransfer
      → List DepartureWindow
      → List Recommendation
      → List Recommendation
  try_windows drivers vehicle transfers [] recommendations = recommendations
  try_windows drivers vehicle transfers (window ∷ windows) recommendations =
      try_windows drivers vehicle transfers windows
        (elim (has_vehicle_conflict input.conflicts vehicle.id window) [
          | true ↦ recommendations
          | false ↦ try_drivers vehicle transfers window drivers recommendations
        ])

  unfoldable pub try_vehicle :
      List PlanningDriver
      → List DepartureWindow
      → PlanningVehicle
      → List PlanningTransfer
      → List Recommendation
      → List Recommendation
  try_vehicle drivers windows vehicle [] recommendations = recommendations
  try_vehicle drivers windows vehicle (transfer ∷ transfers) recommendations =
      try_windows drivers vehicle (transfer ∷ transfers) windows recommendations

  unfoldable pub try_vehicles :
      List PlanningDriver
      → List DepartureWindow
      → List PlanningVehicle
      → List Recommendation
      → List Recommendation
  try_vehicles drivers windows [] recommendations = recommendations
  try_vehicles drivers windows (vehicle ∷ vehicles) recommendations =
      try_vehicles drivers windows vehicles (
        try_vehicle drivers windows vehicle
          (select_transfers_for_capacity locale input.transfers vehicle.capacity_weight_grams)
          recommendations)

  unfoldable pub number_from : ℕ → List Recommendation → List RankedRecommendation
  number_from rank [] = []
  number_from rank (recommendation ∷ recommendations) =
      record { rank = rank; recommendation = recommendation }
      ∷ number_from (rank + 1) recommendations

  unfoldable pub planning_windows : List DepartureWindow
  planning_windows =
      build_departure_windows input.earliest_start_at input.latest_end_at
        (resolve_planning_duration_minutes (route_duration input.route))

  unfoldable pub score_line_haul_planning : List RankedRecommendation
  unfolding number_from planning_windows
  score_line_haul_planning = unless_empty input.transfers (
      number_from 1 (
        try_vehicles (sort (compare_drivers locale) input.drivers) planning_windows
          (sort (compare_vehicles locale) input.vehicles) []))
