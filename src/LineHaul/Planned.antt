-- ===== src/LineHaul/Planned.antt =====
-- The commands of planning keep: no driver and no vehicle is booked twice, and no transfer is on two
-- manifests.
use project_logictic.Prelude.{
  ℕ, ◌≡◌, ◌≤◌, ◌++◌, Bool, false, none, List, [], ◌∷◌, arith, find_first, count_where, update_many,
  count_where-append_one, count_where-update_many_le, count_where_of_find_first,
}
use mathlib.Core.Path.{subst}
use project_logictic.Prelude.Eq.{nat_eq}
use project_logictic.Store.{Store, LineHaulTrip, LineHaulTripTransfer}
use project_logictic.LineHaul.Booked.{Booked}
use project_logictic.LineHaul.Commands.{release_where, release_data}
use project_logictic.LineHaul.Loading.{
  is_active_assignment, new_assignment, remove_where, remove_data,
}

pub record Planned (trips : List LineHaulTrip) (assignments : List LineHaulTripTransfer)
    : Type 0 where
  pub booked : Booked trips
  pub carried_once :
      (transfer_id : ℕ) → count_where (is_active_assignment transfer_id) assignments ≤ 1

abbrev pub IsPlanned : Store → Type 0
IsPlanned s = Planned s.trips s.trip_transfers

-- A change that sets no assignment active.
deactivate :
    (test : LineHaulTripTransfer → Bool) (change : LineHaulTripTransfer → LineHaulTripTransfer)
    (assignments : List LineHaulTripTransfer) (transfer_id : ℕ)
    → ((row : LineHaulTripTransfer) → (change row).is_active ≡ false)
    → count_where (is_active_assignment transfer_id) (update_many test change assignments)
      ≤ count_where (is_active_assignment transfer_id) assignments
unfolding is_active_assignment
deactivate test change assignments transfer_id inactive =
    count_where-update_many_le (is_active_assignment transfer_id) test change assignments
      (λ row _ passes. absurd (ground (arith, inactive row)))

module _ (trips : List LineHaulTrip) (assignments : List LineHaulTripTransfer)
    (planned : Planned trips assignments) where
  pub trips-Planned : (after : List LineHaulTrip) → Booked after → Planned after assignments
  trips-Planned after booked = record { booked = booked; carried_once = planned.carried_once }

  pub release-Planned :
      (after : List LineHaulTrip) (id now actor_id : ℕ)
      → Booked after
      → Planned after (update_many (release_where id) (release_data now actor_id) assignments)
  unfolding release_data
  release-Planned after id now actor_id booked = record {
    booked = booked;
    carried_once = λ k. omega (
      arith,
      planned.carried_once k,
      deactivate (release_where id) (release_data now actor_id) assignments k (λ row. ground arith),
    );
  }

  pub remove-Planned :
      (id now actor_id : ℕ)
      → Planned trips (update_many (remove_where id) (remove_data now actor_id) assignments)
  unfolding remove_data
  remove-Planned id now actor_id = record {
    booked = planned.booked;
    carried_once = λ k. omega (
      arith,
      planned.carried_once k,
      deactivate (remove_where id) (remove_data now actor_id) assignments k (λ row. ground arith),
    );
  }

  pub assign-Planned :
      (new_id trip_id transfer_id actor_id : ℕ)
      → find_first (is_active_assignment transfer_id) assignments ≡ none
      → Planned trips (assignments ++ (new_assignment new_id trip_id transfer_id actor_id ∷ []))
  unfolding new_assignment is_active_assignment
  assign-Planned new_id trip_id transfer_id actor_id free = record {
    booked = planned.booked;
    carried_once = λ k.
        count_where-append_one (is_active_assignment k) assignments
          (new_assignment new_id trip_id transfer_id actor_id) (planned.carried_once k)
          (λ passes. count_where_of_find_first (is_active_assignment k) assignments (
            subst (λ c. find_first (is_active_assignment c) assignments ≡ none) (ground arith)
              free));
  }
