-- ===== src/LineHaul/Planning/Optimal.antt =====
-- What the planner recommends: the best of all candidates, each of which can be carried out.
use mathlib.Core.Path.{subst}
use project_logictic.Prelude.{
  ℕ, suc, ◌≡◌, ◌+◌, ◌≤◌, refl, sym, ap, ◌∙◌, Bool, true, false, List, [], ◌∷◌, ◌++◌, inl, inr,
  if◌then◌else◌, List-cases, arith, All, All-append, length,
}
use project_logictic.Prelude.Eq.{nat_eq, option_eq}
use project_logictic.Prelude.Sort.{sort, sort_from}
use project_logictic.Prelude.SortLaws.{sort-All, take-All, length-take_le}
use project_logictic.LineHaul.Planning.Rules.{
  PlanningDriver, PlanningVehicle, PlanningTransfer, DepartureWindow, Locale, select_from,
  select_transfers_for_capacity, has_driver_conflict, has_vehicle_conflict,
}
use project_logictic.LineHaul.Planning.Score.{
  ScorePlanningInput, Recommendation, compare_recommendations, compare_drivers, compare_vehicles,
  candidate_for, number_from, planning_windows, score_line_haul_planning, unless_empty,
}
use project_logictic.LineHaul.Planning.Windows.{IsWithin, build_departure_windows-IsWithin}
use project_logictic.LineHaul.Planning.Selection.{
  weight_of, select_transfers_for_capacity_lem, score_reasons-bound,
}
use project_logictic.LineHaul.Planning.Best.{
  IsLocale, driver_candidates, window_candidates, vehicle_candidates, all_candidates, best_of,
  best-nil, try_vehicles-best_of,
}

module _ (locale : Locale) (tenths : ℕ → ℕ → ℕ) (input : ScorePlanningInput) where
  -- All candidates of the request.
  abbrev pub request_candidates : List Recommendation
  request_candidates =
      all_candidates locale tenths input (sort (compare_drivers locale) input.drivers)
        (planning_windows locale tenths input) (sort (compare_vehicles locale) input.vehicles)

  selects_none :
      (capacity : ℕ)
      → input.transfers ≡ []
      → select_transfers_for_capacity locale input.transfers capacity ≡ []
  unfolding select_transfers_for_capacity sort sort_from select_from
  selects_none capacity e = ap (λ ts. select_transfers_for_capacity locale ts capacity) e

  no_transfers :
      (drivers : List PlanningDriver) (windows : List DepartureWindow)
      (vehicles : List PlanningVehicle)
      → input.transfers ≡ []
      → all_candidates locale tenths input drivers windows vehicles ≡ []
  no_transfers drivers windows [] e = refl
  no_transfers drivers windows (vehicle ∷ vehicles) e =
      ap
        (λ ts.
          vehicle_candidates locale tenths input drivers windows vehicle ts
          ++ all_candidates locale tenths input drivers windows vehicles)
        (selects_none vehicle.capacity_weight_grams e)
      ∙ no_transfers drivers windows vehicles e

  -- A recommendation that can be carried out.
  pub record IsFeasible (r : Recommendation) : Type 0 where
    pub loads : weight_of r.transfers ≤ r.vehicle.capacity_weight_grams
    pub starts : input.earliest_start_at ≤ r.scheduled_start_at
    pub ends : r.scheduled_end_at ≤ input.latest_end_at
    pub vehicle_free :
        (slot : ℕ) × (has_vehicle_conflict input.conflicts r.vehicle.id
            (record { start = r.scheduled_start_at; end = r.scheduled_end_at; slot_index = slot })
          ≡ false)
    pub driver_free :
        (slot : ℕ) × (has_driver_conflict input.conflicts r.driver.id
            (record { start = r.scheduled_start_at; end = r.scheduled_end_at; slot_index = slot })
          ≡ false)
    pub points : r.score ≤ 100

  -- What comes in unless there is a conflict.
  unless-All :
      (conflicted : Bool) (rs : List Recommendation)
      → (conflicted ≡ false → All IsFeasible rs)
      → All IsFeasible (if conflicted then [] else rs)
  unless-All true rs h = tt
  unless-All false rs h = h refl

  driver_candidates-IsFeasible :
      (vehicle : PlanningVehicle) (transfers : List PlanningTransfer) (window : DepartureWindow)
      (drivers : List PlanningDriver)
      → weight_of transfers ≤ vehicle.capacity_weight_grams
      → IsWithin input.earliest_start_at input.latest_end_at window
      → has_vehicle_conflict input.conflicts vehicle.id window ≡ false
      → All IsFeasible (driver_candidates locale tenths input vehicle transfers window drivers)
  unfolding candidate_for
  driver_candidates-IsFeasible vehicle transfers window [] fits within free = tt
  driver_candidates-IsFeasible vehicle transfers window (driver ∷ drivers) fits within free =
      All-append IsFeasible _ _
        (unless-All (has_driver_conflict input.conflicts driver.id window) _ (λ calm. (
          record {
            loads = fits;
            starts = within.0;
            ends = within.1.1;
            vehicle_free = (window.slot_index, free);
            driver_free = (window.slot_index, calm);
            points = score_reasons-bound _ _ _ _ _;
          },
          tt,
        )))
        (driver_candidates-IsFeasible vehicle transfers window drivers fits within free)

  window_candidates-IsFeasible :
      (drivers : List PlanningDriver) (vehicle : PlanningVehicle)
      (transfers : List PlanningTransfer) (windows : List DepartureWindow)
      → weight_of transfers ≤ vehicle.capacity_weight_grams
      → All (IsWithin input.earliest_start_at input.latest_end_at) windows
      → All IsFeasible (window_candidates locale tenths input drivers vehicle transfers windows)
  window_candidates-IsFeasible drivers vehicle transfers [] fits within = tt
  window_candidates-IsFeasible drivers vehicle transfers (window ∷ windows) fits within =
      All-append IsFeasible _ _
        (unless-All (has_vehicle_conflict input.conflicts vehicle.id window) _ (λ free.
          driver_candidates-IsFeasible vehicle transfers window drivers fits within.0 free))
        (window_candidates-IsFeasible drivers vehicle transfers windows fits within.1)

  vehicle_candidates-IsFeasible :
      (drivers : List PlanningDriver) (windows : List DepartureWindow) (vehicle : PlanningVehicle)
      (transfers : List PlanningTransfer)
      → weight_of transfers ≤ vehicle.capacity_weight_grams
      → All (IsWithin input.earliest_start_at input.latest_end_at) windows
      → All IsFeasible (vehicle_candidates locale tenths input drivers windows vehicle transfers)
  vehicle_candidates-IsFeasible drivers windows vehicle [] fits within = tt
  vehicle_candidates-IsFeasible drivers windows vehicle (transfer ∷ transfers) fits within =
      window_candidates-IsFeasible drivers vehicle (transfer ∷ transfers) windows fits within

  all_candidates-IsFeasible :
      (drivers : List PlanningDriver) (windows : List DepartureWindow)
      (vehicles : List PlanningVehicle)
      → All (IsWithin input.earliest_start_at input.latest_end_at) windows
      → All IsFeasible (all_candidates locale tenths input drivers windows vehicles)
  all_candidates-IsFeasible drivers windows [] within = tt
  all_candidates-IsFeasible drivers windows (vehicle ∷ vehicles) within =
      All-append IsFeasible _ _
        (vehicle_candidates-IsFeasible drivers windows vehicle _
          (select_transfers_for_capacity_lem locale input.transfers vehicle.capacity_weight_grams).0
          within)
        (all_candidates-IsFeasible drivers windows vehicles within)

  planning_windows-IsWithin :
      All
        (IsWithin input.earliest_start_at input.latest_end_at)
        (planning_windows locale tenths input)
  unfolding planning_windows
  planning_windows-IsWithin = build_departure_windows-IsWithin _ _ _

  number_from-All :
      (rank : ℕ) (rs : List Recommendation)
      → All IsFeasible rs
      → All (λ r. IsFeasible r.recommendation) (number_from locale tenths input rank rs)
  unfolding number_from
  number_from-All rank [] h = tt
  number_from-All rank (r ∷ rs) h = (h.0, number_from-All (rank + 1) rs h.1)

  length-number_from :
      (rank : ℕ) (rs : List Recommendation)
      → length (number_from locale tenths input rank rs) ≡ length rs
  unfolding number_from
  length-number_from rank [] = refl
  length-number_from rank (r ∷ rs) = ap suc (length-number_from (rank + 1) rs)

module _ (locale : Locale) (tenths : ℕ → ℕ → ℕ) (input : ScorePlanningInput)
    (lawful : IsLocale locale) where
  abbrev chosen : List Recommendation
  chosen = best_of locale lawful input.max_recommendations (request_candidates locale tenths input)

  numbered_none : input.transfers ≡ [] → [] ≡ number_from locale tenths input 1 chosen
  unfolding number_from
  numbered_none e = ap (number_from locale tenths input 1) (
      sym (
        ap (best_of locale lawful input.max_recommendations)
          (no_transfers locale tenths input _ _ _ e)
        ∙ best-nil locale lawful tenths input))

  -- The planner recommends the first of all candidates in the order of its comparison: the list that
  -- it sorts and cuts after each candidate ends as if all candidates had been sorted once, and is
  -- numbered from 1.
  pub score_line_haul_planning-best_of :
      score_line_haul_planning locale tenths input ≡ number_from locale tenths input 1 chosen
  unfolding score_line_haul_planning
  score_line_haul_planning-best_of =
      ap (λ rs. unless_empty input.transfers (number_from locale tenths input 1 rs))
        (try_vehicles-best_of locale lawful tenths input _ _ _)
      ∙ elim (List-cases input.transfers) [
        | inl e ↦
            ap (λ ts. unless_empty ts (number_from locale tenths input 1 chosen)) e
            ∙ numbered_none e
        | inr (t, ts, e) ↦ ap (λ ts'. unless_empty ts' (number_from locale tenths input 1 chosen)) e
      ]

  -- Every recommendation can be carried out: its transfers fit into its vehicle, it lies in the
  -- requested time, its vehicle and driver have no conflict in it, and its score is at most 100; and
  -- there are at most as many as were asked for.
  pub score_line_haul_planning-IsFeasible :
      All
        (λ r. IsFeasible locale tenths input r.recommendation)
        (score_line_haul_planning locale tenths input)
      × (length (score_line_haul_planning locale tenths input) ≤ input.max_recommendations)
  score_line_haul_planning-IsFeasible =
      subst
        (λ rs.
          All (λ r. IsFeasible locale tenths input r.recommendation) rs
          × (length rs ≤ input.max_recommendations))
        (sym score_line_haul_planning-best_of)
        (
          number_from-All locale tenths input 1 chosen (
              take-All (compare_recommendations locale) (IsFeasible locale tenths input) _ _ (
                sort-All (compare_recommendations locale) (IsFeasible locale tenths input) _ (
                  all_candidates-IsFeasible locale tenths input _ _ _
                    (planning_windows-IsWithin locale tenths input)))),
          omega (
            arith,
            length-number_from locale tenths input 1 chosen,
            length-take_le (compare_recommendations locale) input.max_recommendations
                (sort (compare_recommendations locale) (request_candidates locale tenths input)),
          ),
        )
