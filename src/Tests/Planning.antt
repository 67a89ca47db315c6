-- ===== src/Tests/Planning.antt =====
-- The planner at concrete inputs.
use project_logictic.Prelude.{
  ℕ, ◌+◌, ◌*◌, ◌/◌, ◌≤◌, ◌≡◌, none, some, List, [], ◌∷◌, All, length, get_elem?,
}
use project_logictic.Prelude.Sort.{compare_ℕ, compare_ℕ-IsOrder, on-IsOrder}
use project_logictic.LineHaul.Planning.Rules.{
  PlanningDriver, PlanningVehicle, PlanningTransfer, PlanningConflict, Locale,
  select_transfers_for_capacity, build_departure_windows, step_ms,
}
use project_logictic.LineHaul.Planning.Score.{
  ScorePlanningInput, score_line_haul_planning, number_from,
}
use project_logictic.LineHaul.Planning.Windows.{window_at, build_departure_windows-get_elem?}
use project_logictic.LineHaul.Planning.Selection.{
  weight_of, IsDecided, select_transfers_for_capacity_lem,
}
use project_logictic.LineHaul.Planning.Best.{IsLocale, best_of}
use project_logictic.LineHaul.Planning.Optimal.{
  request_candidates, IsFeasible, score_line_haul_planning-best_of,
  score_line_haul_planning-IsFeasible,
}

-- Codes by their length.
abbrev locale : Locale
locale = record { compare_text = λ a b. compare_ℕ (length a) (length b); compare_id = compare_ℕ }

locale-IsLocale : IsLocale locale
locale-IsLocale = record {
  orders_text = on-IsOrder length compare_ℕ-IsOrder;
  orders_id = compare_ℕ-IsOrder;
}

-- The percentage in tenths, rounded.
abbrev tenths : ℕ → ℕ → ℕ
tenths weight capacity = (2000 * weight + capacity) / (2 * capacity)

abbrev transfer : ℕ → ℕ → PlanningTransfer
transfer id grams = record {
  id = id;
  transfer_code = [];
  tracking_code = [];
  load_weight_grams = grams;
  created_at = id;
}

abbrev waiting_transfers : List PlanningTransfer
waiting_transfers = transfer 3 500 ∷ transfer 1 700 ∷ transfer 2 400 ∷ []

abbrev van : PlanningVehicle
van = record {
  id = 4;
  vehicle_code = 86 ∷ [];
  license_plate = [];
  vehicle_type = [];
  capacity_weight_grams = 1200;
}

abbrev hauler : PlanningDriver
hauler = record { id = 9; employee_code = 68 ∷ []; full_name = []; operating_warehouse_id = some 1 }

-- The driver is away in the first half hour.
abbrev away : PlanningConflict
away = record {
  driver_id = 9;
  vehicle_id = 0;
  scheduled_start_at = some 0;
  scheduled_end_at = some 1800000;
}

-- Four hours, of which a trip takes three.
abbrev request : ScorePlanningInput
request = record {
  origin_warehouse_id = 1;
  destination_warehouse_id = 2;
  earliest_start_at = 0;
  latest_end_at = 14400000;
  drivers = hauler ∷ [];
  vehicles = van ∷ [];
  transfers = waiting_transfers;
  conflicts = away ∷ [];
  route = none;
  max_recommendations = 2;
}

build_departure_windows-get_elem?_example :
    get_elem? (build_departure_windows 0 14400000 180) 2
    ≡ window_at 14400000 (180 * 60000) (0 + 2 * step_ms) 2
build_departure_windows-get_elem?_example = build_departure_windows-get_elem? 0 14400000 180 2

select_transfers_for_capacity_lem_example :
    (weight_of (select_transfers_for_capacity locale waiting_transfers 1200) ≤ 1200)
    × All
        (IsDecided 1200 0 (select_transfers_for_capacity locale waiting_transfers 1200))
        waiting_transfers
select_transfers_for_capacity_lem_example =
    select_transfers_for_capacity_lem locale waiting_transfers 1200

score_line_haul_planning-best_of_example :
    score_line_haul_planning locale tenths request
    ≡ number_from locale tenths request 1
        (best_of locale locale-IsLocale 2 (request_candidates locale tenths request))
score_line_haul_planning-best_of_example =
    score_line_haul_planning-best_of locale tenths request locale-IsLocale

score_line_haul_planning-IsFeasible_example :
    All
      (λ r. IsFeasible locale tenths request r.recommendation)
      (score_line_haul_planning locale tenths request)
    × (length (score_line_haul_planning locale tenths request) ≤ 2)
score_line_haul_planning-IsFeasible_example =
    score_line_haul_planning-IsFeasible locale tenths request locale-IsLocale
