-- ===== src/LineHaul/Planning/Rules.antt =====
-- The rules of the planner (backend/src/modules/line-haul/line-haul-planning.policy.ts): durations,
-- departure windows, the choice of transfers, conflicts and points. A date is its time in
-- milliseconds. `localeCompare` is a parameter, and so is the rounded percentage of a division.
use project_logictic.Prelude.{
  ℕ, zero, suc, ◌+◌, ◌-◌, ◌*◌, ◌/◌, min, max, ◌&&◌, Bool, true, false, Option, none, some, List, [],
  ◌∷◌, if◌then◌else◌, leb, ltb, any_of,
}
use project_logictic.Prelude.Eq.{◌==◌, nat_eq}
use project_logictic.Prelude.Sort.{Comparison, or_else, compare_ℕ, sort}
use project_logictic.Text.{Text}
use project_logictic.Schema.{RouteMetricMode}

abbrev pub planning_slot_minutes : ℕ
planning_slot_minutes = 30

abbrev pub planning_route_buffer_minutes : ℕ
planning_route_buffer_minutes = 30

abbrev pub planning_min_duration_minutes : ℕ
planning_min_duration_minutes = 60

abbrev pub planning_fallback_duration_minutes : ℕ
planning_fallback_duration_minutes = 180

pub record PlanningDriver : Type 0 where
  pub id : ℕ
  pub employee_code : Text
  pub full_name : Text
  pub operating_warehouse_id : Option ℕ

pub record PlanningVehicle : Type 0 where
  pub id : ℕ
  pub vehicle_code : Text
  pub license_plate : Text
  pub vehicle_type : Text
  pub capacity_weight_grams : ℕ

pub record PlanningTransfer : Type 0 where
  pub id : ℕ
  pub transfer_code : Text
  pub tracking_code : Text
  pub load_weight_grams : ℕ
  pub created_at : ℕ

pub record PlanningConflict : Type 0 where
  pub driver_id : ℕ
  pub vehicle_id : ℕ
  pub scheduled_start_at : Option ℕ
  pub scheduled_end_at : Option ℕ

pub record DepartureWindow : Type 0 where
  pub start : ℕ
  pub end : ℕ
  pub slot_index : ℕ

-- `localeCompare`, for codes and for ids.
pub record Locale : Type 0 where
  pub compare_text : Text → Text → Comparison
  pub compare_id : ℕ → ℕ → Comparison

-- `Math.ceil((durationSeconds / 60 + 30) / 30) * 30`, and at least an hour. The division is exact to
-- far less than the distance to the next slot.
unfoldable pub resolve_planning_duration_minutes : Option ℕ → ℕ
resolve_planning_duration_minutes none = planning_fallback_duration_minutes
resolve_planning_duration_minutes (some seconds) = max planning_min_duration_minutes (
    ((seconds + planning_route_buffer_minutes * 60 + (planning_slot_minutes * 60 - 1))
      / (planning_slot_minutes * 60))
    * planning_slot_minutes)

abbrev pub step_ms : ℕ
step_ms = 1800000

-- The loop of `buildDepartureWindows`, on fuel.
unfoldable pub windows_from : ℕ → (latest duration start slot : ℕ) → List DepartureWindow
windows_from zero latest duration start slot = []
windows_from (suc fuel) latest duration start slot = elim (leb (start + duration) latest) [
  | true ↦
      record { start = start; end = start + duration; slot_index = slot }
      ∷ windows_from fuel latest duration (start + step_ms) (slot + 1)
  | false ↦ []
]

-- Each round moves the start, so one more round than there are milliseconds is enough.
unfoldable pub build_departure_windows :
    (earliest latest duration_minutes : ℕ) → List DepartureWindow
unfolding windows_from
build_departure_windows earliest latest duration_minutes =
    windows_from (latest + 1) latest (duration_minutes * 60000) earliest 0

unfoldable pub compare_transfers : Locale → PlanningTransfer → PlanningTransfer → Comparison
compare_transfers locale left right =
    or_else (compare_ℕ left.created_at right.created_at) (locale.compare_id left.id right.id)

-- The loop of `selectTransfersForCapacity`.
unfoldable pub select_from : (capacity total : ℕ) → List PlanningTransfer → List PlanningTransfer
select_from capacity total [] = []
select_from capacity total (transfer ∷ transfers) =
    elim (ltb capacity (total + transfer.load_weight_grams)) [
      | true ↦ select_from capacity total transfers
      | false ↦ transfer ∷ select_from capacity (total + transfer.load_weight_grams) transfers
    ]

unfoldable pub select_transfers_for_capacity :
    Locale → List PlanningTransfer → (capacity : ℕ) → List PlanningTransfer
unfolding compare_transfers select_from
select_transfers_for_capacity locale transfers capacity =
    select_from capacity 0 (sort (compare_transfers locale) transfers)

unfoldable pub overlaps : PlanningConflict → DepartureWindow → Bool
overlaps conflict window = elim conflict.scheduled_start_at [
  | none ↦ true
  | some start ↦ elim conflict.scheduled_end_at [
    | none ↦ true
    | some end ↦ ltb window.start end && ltb start window.end
  ]
]

unfoldable pub has_driver_conflict : List PlanningConflict → ℕ → DepartureWindow → Bool
unfolding overlaps
has_driver_conflict conflicts driver_id window =
    any_of (λ conflict. conflict.driver_id == driver_id && overlaps conflict window) conflicts

unfoldable pub has_vehicle_conflict : List PlanningConflict → ℕ → DepartureWindow → Bool
unfolding overlaps
has_vehicle_conflict conflicts vehicle_id window =
    any_of (λ conflict. conflict.vehicle_id == vehicle_id && overlaps conflict window) conflicts

pub data PlanningReasonCode : Type 0 where
  capacity_utilization transfer_consolidation early_departure : PlanningReasonCode
  route_metric_quality driver_origin_alignment : PlanningReasonCode

-- A reason, without its label.
pub record PlanningScoreReason : Type 0 where
  pub code : PlanningReasonCode
  pub points : ℕ

unfoldable pub route_points : Option RouteMetricMode → ℕ
route_points (some RouteMetricMode.road_route) = 10
route_points (some RouteMetricMode.haversine_fallback) = 5
route_points none = 0

-- The percentage comes in tenths: `Math.round(percent * 0.45)` is (9 * tenths + 100) / 200.
unfoldable pub score_reasons :
    (tenths transfer_count slot_index : ℕ)
    → Option RouteMetricMode
    → Bool
    → List PlanningScoreReason
unfolding route_points
score_reasons tenths transfer_count slot_index mode driver_matches_origin =
    record { code = capacity_utilization; points = min 45 ((9 * tenths + 100) / 200) }
    ∷ record { code = transfer_consolidation; points = min 20 (transfer_count * 4) }
    ∷ record { code = early_departure; points = 20 - slot_index * 2 }
    ∷ record { code = route_metric_quality; points = route_points mode }
    ∷ record { code = driver_origin_alignment; points = if driver_matches_origin then 5 else 0 }
    ∷ []
