-- ===== src/Prelude/Lists.antt =====
-- Lists as database tables, and lists in general, over the native numbers.
use Prim.Native.Nat.{ℕ, zero, suc, ◌+◌}
use mathlib.Core.Path.{◌≡◌, refl, subst}
use mathlib.Core.Logic.{◌⊎◌, inl, inr}
use mathlib.Core.Bool.{Bool, true, false}
use mathlib.Core.Option.{Option, none, some}
use mathlib.Core.List.{List, [], ◌∷◌, ◌++◌}
use native.Mathlib.Omega.{arith}
use project_logictic.Prelude.Tests.{if◌then◌else◌, Bool-cases}

module _ {ℓ} {A : Type ℓ} where
  abbrev pub length : List A → ℕ
  length [] = 0
  length (x ∷ xs) = suc (length xs)

  abbrev pub sum_by : (A → ℕ) → List A → ℕ
  sum_by f [] = 0
  sum_by f (x ∷ xs) = f x + sum_by f xs

  -- The first row that passes the test.
  unfoldable pub find_first : (A → Bool) → List A → Option A
  find_first p [] = none
  find_first p (x ∷ xs) = if p x then some x else find_first p xs

  -- How many rows pass the test.
  unfoldable pub count_where : (A → Bool) → List A → ℕ
  count_where p [] = 0
  count_where p (x ∷ xs) = (if p x then 1 else 0) + count_where p xs

  -- Every row that passes the test is changed.
  unfoldable pub update_many : (A → Bool) → (A → A) → List A → List A
  update_many p f [] = []
  update_many p f (x ∷ xs) = (if p x then f x else x) ∷ update_many p f xs

  unfoldable pub any_of : (A → Bool) → List A → Bool
  any_of p [] = false
  any_of p (x ∷ xs) = if p x then true else any_of p xs

  -- The element at an index.
  unfoldable pub get_elem? : List A → ℕ → Option A
  get_elem? [] k = none
  get_elem? (x ∷ xs) zero = some x
  get_elem? (x ∷ xs) (suc k) = get_elem? xs k

  pub List-cases : (xs : List A) → (xs ≡ []) ⊎ ((x : A) × (rest : List A) × (xs ≡ x ∷ rest))
  List-cases [] = inl refl
  List-cases (x ∷ rest) = inr (x, rest, refl)

  pub length-append : (xs ys : List A) → length (xs ++ ys) ≡ length xs + length ys
  length-append [] ys = omega arith
  length-append (x ∷ xs) ys = omega (arith, length-append xs ys)

-- A predicate on every element, by recursion.
abbrev pub All {ℓ κ} : {A : Type ℓ} (Holds : A → Type κ) (rows : List A) → Type κ
All Holds [] = Unit
All Holds (row ∷ rows) = Holds row × All Holds rows

module _ {ℓ κ} {A : Type ℓ} (P : A → Type κ) where
  pub All-append : (rows new : List A) → All P rows → All P new → All P (rows ++ new)
  All-append [] new held holds = holds
  All-append (row ∷ rows) new held holds = (held.0, All-append rows new held.1 holds)

  pub find_first-All :
      (test : A → Bool) (xs : List A) {x : A} → All P xs → find_first test xs ≡ some x → P x
  unfolding find_first
  find_first-All test [] h e = cc
  find_first-All test (y ∷ ys) {x} h e = elim (Bool-cases (test y)) [
    | inl passes ↦ let q : some y ≡ some x = rw passes at e in subst P (cc q) h.0
    | inr fails ↦ find_first-All test ys h.1 (rw fails at e)
  ]

  pub update_many-All :
      (test : A → Bool) (f : A → A) (xs : List A)
      → ((x : A) → test x ≡ true → P x → P (f x))
      → All P xs
      → All P (update_many test f xs)
  unfolding update_many
  update_many-All test f [] keep h = tt
  update_many-All test f (x ∷ xs) keep h = elim (Bool-cases (test x)) [
    | inl passes ↦ (rw passes (keep x passes h.0), update_many-All test f xs keep h.1)
    | inr fails ↦ (rw fails h.0, update_many-All test f xs keep h.1)
  ]

pub find_first-passes {ℓ} :
    {A : Type ℓ} (test : A → Bool) (xs : List A) {x : A}
    → find_first test xs ≡ some x
    → test x ≡ true
unfolding find_first
find_first-passes test [] e = cc
find_first-passes test (y ∷ ys) {x} e = elim (Bool-cases (test y)) [
  | inl passes ↦
      let q : some y ≡ some x = rw passes at e in subst (λ z. test z ≡ true) (cc q) passes
  | inr fails ↦ find_first-passes test ys (rw fails at e)
]

-- A guarded change keeps a property that holds of all rows, if it does so of rows with any fact that
-- holds of all.
pub update_many-All_with {ℓ κ μ} :
    {A : Type ℓ} (P : A → Type κ) (Q : A → Type μ) (test : A → Bool) (f : A → A) (xs : List A)
    → ((x : A) → test x ≡ true → Q x → P x → P (f x))
    → All Q xs
    → All P xs
    → All P (update_many test f xs)
unfolding update_many
update_many-All_with P Q test f [] keep hq hp = tt
update_many-All_with P Q test f (x ∷ xs) keep hq hp = elim (Bool-cases (test x)) [
  | inl passes ↦
      (rw passes (keep x passes hq.0 hp.0), update_many-All_with P Q test f xs keep hq.1 hp.1)
  | inr fails ↦ (rw fails hp.0, update_many-All_with P Q test f xs keep hq.1 hp.1)
]

pub All-map {ℓ κ μ} :
    {A : Type ℓ} (P : A → Type κ) (Q : A → Type μ) (xs : List A)
    → ((x : A) → P x → Q x)
    → All P xs
    → All Q xs
All-map P Q [] step h = tt
All-map P Q (x ∷ xs) step h = (step x h.0, All-map P Q xs step h.1)

-- Rows that pass the test are changed, and all have the new property.
pub update_many-All_into {ℓ κ μ} :
    {A : Type ℓ} (P : A → Type κ) (Q : A → Type μ) (test : A → Bool) (change : A → A) (xs : List A)
    → ((x : A) → test x ≡ true → P x → Q (change x))
    → ((x : A) → test x ≡ false → P x → Q x)
    → All P xs
    → All Q (update_many test change xs)
unfolding update_many
update_many-All_into P Q test change [] passing failing h = tt
update_many-All_into P Q test change (x ∷ xs) passing failing h = elim (Bool-cases (test x)) [
  | inl passes ↦ (
    rw passes (passing x passes h.0),
    update_many-All_into P Q test change xs passing failing h.1,
  )
  | inr fails ↦
      (rw fails (failing x fails h.0), update_many-All_into P Q test change xs passing failing h.1)
]
