-- ===== src/LineHaul/Planning/Windows.antt =====
-- The departure windows are exactly those that fit, one every half hour.
use project_logictic.Prelude.{
  ℕ, zero, suc, ◌≡◌, ◌+◌, ◌*◌, ◌≤◌, ◌<◌, refl, sym, ap, ◌∙◌, true, false, Option, none, some, List,
  [], ◌∷◌, inl, inr, leb, Bool-cases, arith, All, get_elem?,
}
use mathlib.Core.Path.{subst}
use project_logictic.LineHaul.Planning.Rules.{
  DepartureWindow, step_ms, windows_from, build_departure_windows,
}

-- The window of a slot, if it ends in time.
abbrev pub window_at : (latest duration start slot : ℕ) → Option DepartureWindow
window_at latest duration start slot = elim (leb (start + duration) latest) [
  | true ↦ some record { start = start; end = start + duration; slot_index = slot }
  | false ↦ none
]

late_window :
    (latest duration start slot : ℕ)
    → latest < start + duration
    → none ≡ window_at latest duration start slot
late_window latest duration start slot late = ground arith

window_fits :
    (latest duration start slot : ℕ)
    → leb (start + duration) latest ≡ true
    → some (record { start = start; end = start + duration; slot_index = slot })
      ≡ window_at latest duration start slot
window_fits latest duration start slot fits = ground arith

window_at-eq :
    (latest duration : ℕ) {start start' slot slot' : ℕ}
    → start ≡ start'
    → slot ≡ slot'
    → window_at latest duration start slot ≡ window_at latest duration start' slot'
window_at-eq latest duration {start} {start'} {slot} {slot'} e e' =
    ap (λ a. window_at latest duration a slot) e ∙ ap (window_at latest duration start') e'

-- One round of the loop.
windows_fit :
    (fuel latest duration start slot : ℕ)
    → leb (start + duration) latest ≡ true
    → windows_from (suc fuel) latest duration start slot
      ≡ record { start = start; end = start + duration; slot_index = slot }
        ∷ windows_from fuel latest duration (start + step_ms) (slot + 1)
unfolding windows_from
windows_fit fuel latest duration start slot fits = ground arith

windows_late :
    (fuel latest duration start slot : ℕ)
    → leb (start + duration) latest ≡ false
    → windows_from (suc fuel) latest duration start slot ≡ []
unfolding windows_from
windows_late fuel latest duration start slot late = ground arith

-- The first window and those behind it.
at_slot :
    (latest duration start slot : ℕ) (rest : List DepartureWindow)
    → leb (start + duration) latest ≡ true
    → ((k : ℕ)
        → get_elem? rest k
          ≡ window_at latest duration (start + step_ms + k * step_ms) (slot + 1 + k))
    → (k : ℕ)
    → get_elem? (record { start = start; end = start + duration; slot_index = slot } ∷ rest) k
      ≡ window_at latest duration (start + k * step_ms) (slot + k)
unfolding get_elem?
at_slot latest duration start slot rest fits later zero =
    window_fits latest duration start slot fits
    ∙ window_at-eq latest duration (omega arith) (omega arith)
at_slot latest duration start slot rest fits later (suc k) =
    later k ∙ window_at-eq latest duration (omega arith) (omega arith)

windows_from-get_elem? :
    (fuel latest duration start slot k : ℕ)
    → latest < start + duration + fuel * step_ms
    → get_elem? (windows_from fuel latest duration start slot) k
      ≡ window_at latest duration (start + k * step_ms) (slot + k)
unfolding windows_from get_elem?
windows_from-get_elem? zero latest duration start slot k enough =
    late_window latest duration (start + k * step_ms) (slot + k) (omega arith)
windows_from-get_elem? (suc fuel) latest duration start slot k enough =
    elim (Bool-cases (leb (start + duration) latest)) [
      | inl fits ↦
          ap (λ windows. get_elem? windows k) (windows_fit fuel latest duration start slot fits)
          ∙ at_slot latest duration start slot
              (windows_from fuel latest duration (start + step_ms) (slot + 1)) fits
              (λ k'.
                windows_from-get_elem? fuel latest duration (start + step_ms) (slot + 1) k'
                  (omega arith))
              k
      | inr late ↦
          ap (λ windows. get_elem? windows k) (windows_late fuel latest duration start slot late)
          ∙ late_window latest duration (start + k * step_ms) (slot + k) (ground arith)
    ]

-- The windows are those that fit, one every half hour from the earliest start: the loop ends by its
-- own test, and the window of slot `k` is in the list, at index `k`, exactly where it ends in time.
pub build_departure_windows-get_elem? :
    (earliest latest duration_minutes k : ℕ)
    → get_elem? (build_departure_windows earliest latest duration_minutes) k
      ≡ window_at latest (duration_minutes * 60000) (earliest + k * step_ms) k
unfolding build_departure_windows
build_departure_windows-get_elem? earliest latest duration_minutes k =
    windows_from-get_elem? (latest + 1) latest (duration_minutes * 60000) earliest 0 k (omega arith)
    ∙ window_at-eq latest (duration_minutes * 60000) refl (omega arith)

-- Every window lies between the two ends.
abbrev pub IsWithin : (earliest latest : ℕ) → DepartureWindow → Type 0
IsWithin earliest latest window =
    (earliest ≤ window.start) × ((window.start ≤ window.end) × (window.end ≤ latest))

windows_from-IsWithin :
    (fuel earliest latest duration start slot : ℕ)
    → earliest ≤ start
    → All (IsWithin earliest latest) (windows_from fuel latest duration start slot)
unfolding windows_from
windows_from-IsWithin zero earliest latest duration start slot h = tt
windows_from-IsWithin (suc fuel) earliest latest duration start slot h =
    elim (Bool-cases (leb (start + duration) latest)) [
      | inl fits ↦
          subst (All (IsWithin earliest latest))
            (sym (windows_fit fuel latest duration start slot fits))
            (
              (h, (omega arith, ground arith)),
              windows_from-IsWithin fuel earliest latest duration (start + step_ms) (slot + 1)
                  (omega arith),
            )
      | inr late ↦
          subst (All (IsWithin earliest latest))
            (sym (windows_late fuel latest duration start slot late)) tt
    ]

pub build_departure_windows-IsWithin :
    (earliest latest duration_minutes : ℕ)
    → All (IsWithin earliest latest) (build_departure_windows earliest latest duration_minutes)
unfolding build_departure_windows
build_departure_windows-IsWithin earliest latest duration_minutes =
    windows_from-IsWithin (latest + 1) earliest latest (duration_minutes * 60000) earliest 0
      (omega arith)
