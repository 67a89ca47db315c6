-- ===== src/Prelude/Sort.antt =====
-- `Array.prototype.sort` with a comparator: a stable sort, here by insertion.
use Prim.Native.Nat.{ℕ, zero, suc, compare, Ordering}
use mathlib.Core.Path.{◌≡◌}
use mathlib.Core.Bool.{Bool, true, false}
use mathlib.Core.List.{List, [], ◌∷◌}
use native.Mathlib.Omega.{arith}
use project_logictic.Prelude.Tests.{if◌then◌else◌}
use project_logictic.Prelude.Lists.{All}

-- The sign of the number that a comparator returns.
pub data Comparison : Type 0 where
  before same after : Comparison

-- `c || d`
abbrev pub or_else : Comparison → Comparison → Comparison
or_else before d = before
or_else same d = d
or_else after d = after

abbrev pub flip : Comparison → Comparison
flip before = after
flip same = same
flip after = before

abbrev pub is_after : Comparison → Bool
is_after after = true
is_after _ = false

-- `a - b`
abbrev pub compare_ℕ : ℕ → ℕ → Comparison
compare_ℕ a b = elim (compare a b) [
  | Ordering.lt ↦ before
  | Ordering.eq ↦ same
  | Ordering.gt ↦ after
]

pub record IsOrder {ℓ} {A : Type ℓ} (cmp : A → A → Comparison) : Type ℓ where
  pub flips : (x y : A) → cmp y x ≡ flip (cmp x y)
  pub before_trans : (x y z : A) → cmp x y ≡ before → cmp y z ≡ before → cmp x z ≡ before
  pub same_left : (x y z : A) → cmp x y ≡ same → cmp x z ≡ cmp y z

pub compare_ℕ-IsOrder : IsOrder compare_ℕ
compare_ℕ-IsOrder = record {
  flips = λ x y. ground arith;
  before_trans = λ x y z h k. ground arith;
  same_left = λ x y z h. ground arith;
}

module _ {ℓ} {A : Type ℓ} {c d : A → A → Comparison} (hc : IsOrder c) (hd : IsOrder d) where
  pub or_else-IsOrder : IsOrder (λ x y. or_else (c x y) (d x y))
  or_else-IsOrder = record {
    flips = λ x y. ground (arith, hc.flips x y, hd.flips x y);
    before_trans = λ x y z h k. ground (
      arith,
      hc.before_trans x y z,
      hc.same_left x y z,
      hc.same_left z y x,
      hc.flips x y,
      hc.flips y z,
      hc.flips x z,
      hd.before_trans x y z,
    );
    same_left = λ x y z h. ground (arith, hc.same_left x y z, hd.same_left x y z);
  }

pub on-IsOrder {ℓ κ} :
    {A : Type ℓ} {B : Type κ} (key : A → B) {cmp : B → B → Comparison}
    → IsOrder cmp
    → IsOrder (λ x y. cmp (key x) (key y))
on-IsOrder key h = record {
  flips = λ x y. h.flips (key x) (key y);
  before_trans = λ x y z. h.before_trans (key x) (key y) (key z);
  same_left = λ x y z. h.same_left (key x) (key y) (key z);
}

pub flip-IsOrder {ℓ} :
    {A : Type ℓ} {cmp : A → A → Comparison} → IsOrder cmp → IsOrder (λ x y. cmp y x)
flip-IsOrder {cmp} h = record {
  flips = λ x y. h.flips y x;
  before_trans = λ x y z p q. h.before_trans z y x q p;
  same_left = λ x y z p.
      ground (arith, h.same_left x y z, h.flips x y, h.flips y x, h.flips x z, h.flips y z);
}

module _ {ℓ} {A : Type ℓ} where
  -- Behind all elements that are not after it.
  unfoldable pub insert_by : (A → A → Comparison) → A → List A → List A
  insert_by cmp x [] = x ∷ []
  insert_by cmp x (y ∷ ys) = if is_after (cmp y x) then x ∷ y ∷ ys else y ∷ insert_by cmp x ys

  unfoldable pub sort_from : (A → A → Comparison) → List A → List A → List A
  sort_from cmp sorted [] = sorted
  sort_from cmp sorted (x ∷ xs) = sort_from cmp (insert_by cmp x sorted) xs

  unfoldable pub sort : (A → A → Comparison) → List A → List A
  sort cmp xs = sort_from cmp [] xs

  -- `array.slice(0, n)`
  unfoldable pub take : ℕ → List A → List A
  take zero xs = []
  take (suc n) [] = []
  take (suc n) (x ∷ xs) = x ∷ take n xs

  -- No element is after one behind it.
  abbrev pub IsSorted : (A → A → Comparison) → List A → Type 0
  IsSorted cmp [] = Unit
  IsSorted cmp (x ∷ xs) = All (λ y. is_after (cmp x y) ≡ false) xs × IsSorted cmp xs

  -- `array.pop()`
  unfoldable pub drop_last : List A → List A
  drop_last [] = []
  drop_last (x ∷ []) = []
  drop_last (x ∷ y ∷ ys) = x ∷ drop_last (y ∷ ys)
