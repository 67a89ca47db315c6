-- ===== src/LineHaul/Planning/Selection.antt =====
-- Which transfers a vehicle gets, and what the points of a recommendation add up to.
use mathlib.Core.Path.{subst}
use mathlib.Core.List.{Mem, mem-cons_self, mem-cons_of_mem}
use project_logictic.Prelude.{
  ℕ, ◌≡◌, ◌+◌, ◌≤◌, ◌<◌, ◌⊎◌, sym, Bool, true, false, Option, List, [], ◌∷◌, inl, inr, ltb,
  Bool-cases, arith, All, sum_by,
}
use project_logictic.Prelude.Sort.{sort}
use project_logictic.Prelude.SortLaws.{All-of_sort}
use project_logictic.Schema.{RouteMetricMode}
use project_logictic.LineHaul.Planning.Rules.{
  PlanningTransfer, Locale, compare_transfers, select_from, select_transfers_for_capacity,
  route_points, score_reasons,
}

abbrev pub weight_of : List PlanningTransfer → ℕ
weight_of transfers = sum_by (λ transfer. transfer.load_weight_grams) transfers

-- A transfer that is chosen, or that does not fit on top of those that are.
abbrev pub IsDecided : (capacity total : ℕ) → List PlanningTransfer → PlanningTransfer → Type 0
IsDecided capacity total selected transfer =
    Mem transfer selected ⊎ (capacity < total + weight_of selected + transfer.load_weight_grams)

-- One more transfer in front decides no less.
IsDecided-with :
    (capacity total : ℕ) (chosen : PlanningTransfer) (selected transfers : List PlanningTransfer)
    → All (IsDecided capacity (total + chosen.load_weight_grams) selected) transfers
    → All (IsDecided capacity total (chosen ∷ selected)) transfers
IsDecided-with capacity total chosen selected [] h = tt
IsDecided-with capacity total chosen selected (t ∷ ts) h = (
  elim h.0 [ inl found ↦ inl (mem-cons_of_mem chosen found) | inr heavy ↦ inr (omega arith) ],
  IsDecided-with capacity total chosen selected ts h.1,
)

select_from_skip :
    (capacity total : ℕ) (t : PlanningTransfer) (ts : List PlanningTransfer)
    → ltb capacity (total + t.load_weight_grams) ≡ true
    → select_from capacity total (t ∷ ts) ≡ select_from capacity total ts
unfolding select_from
select_from_skip capacity total t ts heavy = ground arith

select_from_take :
    (capacity total : ℕ) (t : PlanningTransfer) (ts : List PlanningTransfer)
    → ltb capacity (total + t.load_weight_grams) ≡ false
    → select_from capacity total (t ∷ ts)
      ≡ t ∷ select_from capacity (total + t.load_weight_grams) ts
unfolding select_from
select_from_take capacity total t ts fits = ground arith

select_from_fits :
    (capacity total : ℕ) (transfers : List PlanningTransfer)
    → total ≤ capacity
    → total + weight_of (select_from capacity total transfers) ≤ capacity
unfolding select_from
select_from_fits capacity total [] h = omega arith
select_from_fits capacity total (t ∷ ts) h =
    elim (Bool-cases (ltb capacity (total + t.load_weight_grams))) [
      | inl heavy ↦
          subst (λ selected. total + weight_of selected ≤ capacity)
            (sym (select_from_skip capacity total t ts heavy))
            (select_from_fits capacity total ts h)
      | inr fits ↦
          subst (λ selected. total + weight_of selected ≤ capacity)
            (sym (select_from_take capacity total t ts fits))
            (omega
              (arith, select_from_fits capacity (total + t.load_weight_grams) ts (ground arith)))
    ]

select_from-IsDecided :
    (capacity total : ℕ) (transfers : List PlanningTransfer)
    → All (IsDecided capacity total (select_from capacity total transfers)) transfers
unfolding select_from
select_from-IsDecided capacity total [] = tt
select_from-IsDecided capacity total (t ∷ ts) =
    elim (Bool-cases (ltb capacity (total + t.load_weight_grams))) [
      | inl heavy ↦
          subst (λ selected. All (IsDecided capacity total selected) (t ∷ ts))
            (sym (select_from_skip capacity total t ts heavy))
            (inr (ground arith), select_from-IsDecided capacity total ts)
      | inr fits ↦
          subst (λ selected. All (IsDecided capacity total selected) (t ∷ ts))
            (sym (select_from_take capacity total t ts fits))
            (
              inl mem-cons_self,
              IsDecided-with capacity total t
                  (select_from capacity (total + t.load_weight_grams) ts) ts
                  (select_from-IsDecided capacity (total + t.load_weight_grams) ts),
            )
    ]

-- The transfers that are chosen for a vehicle fit into it together, and no transfer that is left out
-- would fit on top of them.
pub select_transfers_for_capacity_lem :
    (locale : Locale) (transfers : List PlanningTransfer) (capacity : ℕ)
    → (weight_of (select_transfers_for_capacity locale transfers capacity) ≤ capacity)
      × All
          (IsDecided capacity 0 (select_transfers_for_capacity locale transfers capacity))
          transfers
unfolding select_transfers_for_capacity
select_transfers_for_capacity_lem locale transfers capacity = (
  omega (
    arith,
    select_from_fits capacity 0 (sort (compare_transfers locale) transfers) (omega arith),
  ),
  All-of_sort (compare_transfers locale) _ transfers
      (select_from-IsDecided capacity 0 (sort (compare_transfers locale) transfers)),
)

-- The points of a recommendation are at most 100.
pub score_reasons-bound :
    (tenths transfer_count slot_index : ℕ) (mode : Option RouteMetricMode) (matches : Bool)
    → sum_by (λ reason. reason.points) (score_reasons tenths transfer_count slot_index mode matches)
      ≤ 100
unfolding score_reasons route_points
score_reasons-bound tenths transfer_count slot_index mode matches = ground arith
