-- ===== src/Prelude/Eq.antt =====
-- `===` of the source as a Boolean test, by instances: ids, amounts, texts, enumerations.
use Prim.Native.Nat.{ℕ}
use mathlib.Core.Path.{◌≡◌, refl, ap}
use mathlib.Core.Logic.{◌↔◌}
use mathlib.Core.Bool.{Bool, true, false, not, ◌&&◌}
use mathlib.Core.Option.{Option, none, some}
use mathlib.Core.List.{List, [], ◌∷◌}
use native.Mathlib.Omega.{arith}
use project_logictic.Prelude.Tests.{nat_beq}
use project_logictic.Prelude.Int.{ℤ, pos, negsuc}

-- A type with a Boolean test that decides whether two of its values are equal.
pub record Eq {ℓ} (A : Type ℓ) : Type ℓ where
  pub same : (x y : A) → Bool
  pub same_iff : (x y : A) → (same x y ≡ true) ↔ (x ≡ y)

infix 50 ◌!=◌
infix 50 ◌==◌
-- `!==`
abbrev pub ◌!=◌ {ℓ} : {A : Type ℓ} ⦃test : Eq A⦄ (x y : A) → Bool
◌!=◌ ⦃test⦄ x y = not (test.same x y)

-- `===`
abbrev pub ◌==◌ {ℓ} : {A : Type ℓ} ⦃test : Eq A⦄ (x y : A) → Bool
◌==◌ ⦃test⦄ x y = test.same x y

pub nat_beq_iff : (a b : ℕ) → (nat_beq a b ≡ true) ↔ (a ≡ b)
nat_beq_iff a b = (λ h. ground arith, λ h. ground arith)

instance abbrev pub nat_eq : Eq ℕ
nat_eq = record { same_iff = nat_beq_iff; same = nat_beq }

abbrev pub int_beq : ℤ → ℤ → Bool
int_beq (pos a) (pos b) = nat_beq a b
int_beq (negsuc a) (negsuc b) = nat_beq a b
int_beq _ _ = false

pub int_beq_iff : (a b : ℤ) → (int_beq a b ≡ true) ↔ (a ≡ b)
int_beq_iff a b = (λ h. ground arith, λ h. ground arith)

instance abbrev pub int_eq : Eq ℤ
int_eq = record { same_iff = int_beq_iff; same = int_beq }

module _ {ℓ} {A : Type ℓ} ⦃test : Eq A⦄ where
  abbrev pub option_beq : Option A → Option A → Bool
  option_beq none none = true
  option_beq (some a) (some b) = test.same a b
  option_beq _ _ = false

  pub option_beq_iff : (a b : Option A) → (option_beq a b ≡ true) ↔ (a ≡ b)
  option_beq_iff none none = (λ h. refl, λ h. refl)
  option_beq_iff none (some b) = (λ h. cc, λ h. cc)
  option_beq_iff (some a) none = (λ h. cc, λ h. cc)
  option_beq_iff (some a) (some b) =
      (λ h. ap some ((test.same_iff a b).0 h), λ h. (test.same_iff a b).1 (cc))

  instance abbrev pub option_eq : Eq (Option A)
  option_eq = record { same_iff = option_beq_iff; same = option_beq }

  abbrev pub list_beq : List A → List A → Bool
  list_beq [] [] = true
  list_beq (a ∷ as') (b ∷ bs) = test.same a b && list_beq as' bs
  list_beq _ _ = false

  pub list_beq_iff : (a b : List A) → (list_beq a b ≡ true) ↔ (a ≡ b)
  list_beq_iff [] [] = (λ h. refl, λ h. refl)
  list_beq_iff [] (b ∷ bs) = (λ h. cc, λ h. cc)
  list_beq_iff (a ∷ as') [] = (λ h. cc, λ h. cc)
  list_beq_iff (a ∷ as') (b ∷ bs) = (
    λ h. ground (arith, test.same_iff a b, list_beq_iff as' bs),
    λ h. ground (arith, test.same_iff a b, list_beq_iff as' bs),
  )

  instance abbrev pub list_eq : Eq (List A)
  list_eq = record { same_iff = list_beq_iff; same = list_beq }

  -- `array.includes(x)`
  abbrev pub contains : List A → A → Bool
  contains [] x = false
  contains (y ∷ ys) x = elim (test.same y x) [ true ↦ true | false ↦ contains ys x ]

pub enum_beq_iff {ℓ} :
    {A : Type ℓ} (code : A → ℕ) (of_code : ℕ → A)
    → ((a : A) → of_code (code a) ≡ a)
    → (a b : A) → (nat_beq (code a) (code b) ≡ true) ↔ (a ≡ b)
enum_beq_iff code of_code inverse a b = (
  λ h. cc (inverse a, inverse b, (nat_beq_iff (code a) (code b)).0 h),
  λ e. (nat_beq_iff (code a) (code b)).1 (ap code e),
)

-- An enumeration whose values are numbered, with a way back, has an equality test.
abbrev pub enum_eq {ℓ} :
    {A : Type ℓ} (code : A → ℕ) (of_code : ℕ → A) (inverse : (a : A) → of_code (code a) ≡ a) → Eq A
enum_eq code of_code inverse = record {
  same = λ a b. nat_beq (code a) (code b);
  same_iff = λ a b. enum_beq_iff code of_code inverse a b;
}
