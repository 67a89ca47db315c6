-- ===== src/Prelude/Tables.antt =====
-- A table before and after some changes: the rows it had are related one by one, and new rows
-- come behind them.
use mathlib.Core.Path.{◌≡◌}
use mathlib.Core.Logic.{inl, inr}
use mathlib.Core.Bool.{Bool, true}
use mathlib.Core.List.{List, [], ◌∷◌, ◌++◌}
use project_logictic.Prelude.Tests.{Bool-cases}
use project_logictic.Prelude.Lists.{All, update_many}

abbrev pub Grows {ℓ} : {A : Type ℓ} → (A → A → Type 0) → List A → List A → Type 0
Grows R [] ys = Unit
Grows R (x ∷ xs) [] = ⊥
Grows R (x ∷ xs) (y ∷ ys) = R x y × Grows R xs ys

-- The rows, none more and none less, are related one by one.
abbrev pub Pointwise {ℓ} : {A : Type ℓ} → (A → A → Type 0) → List A → List A → Type 0
Pointwise R [] [] = Unit
Pointwise R [] (y ∷ ys) = ⊥
Pointwise R (x ∷ xs) [] = ⊥
Pointwise R (x ∷ xs) (y ∷ ys) = R x y × Pointwise R xs ys

module _ {ℓ} {A : Type ℓ} (R : A → A → Type 0) (R_refl : (x : A) → R x x) where
  pub Pointwise-refl : (xs : List A) → Pointwise R xs xs
  Pointwise-refl [] = tt
  Pointwise-refl (x ∷ xs) = (R_refl x, Pointwise-refl xs)

  pub Grows-refl : (xs : List A) → Grows R xs xs
  Grows-refl [] = tt
  Grows-refl (x ∷ xs) = (R_refl x, Grows-refl xs)

  pub Grows-append : (xs new : List A) → Grows R xs (xs ++ new)
  Grows-append [] new = tt
  Grows-append (x ∷ xs) new = (R_refl x, Grows-append xs new)

  pub update_many-Pointwise :
      (test : A → Bool) (f : A → A) (xs : List A)
      → ((x : A) → test x ≡ true → R x (f x))
      → Pointwise R xs (update_many test f xs)
  unfolding update_many
  update_many-Pointwise test f [] step = tt
  update_many-Pointwise test f (x ∷ xs) step = elim (Bool-cases (test x)) [
    | inl passes ↦ (rw passes (step x passes), update_many-Pointwise test f xs step)
    | inr fails ↦ (rw fails (R_refl x), update_many-Pointwise test f xs step)
  ]

module _ {ℓ} {A : Type ℓ} (R : A → A → Type 0) where
  pub Pointwise-Grows : (xs ys : List A) → Pointwise R xs ys → Grows R xs ys
  Pointwise-Grows [] ys h = tt
  Pointwise-Grows (x ∷ xs) [] h = h
  Pointwise-Grows (x ∷ xs) (y ∷ ys) h = (h.0, Pointwise-Grows xs ys h.1)

  module _ (R_trans : (x y z : A) → R x y → R y z → R x z) where
    pub Pointwise-trans :
        (xs ys zs : List A) → Pointwise R xs ys → Pointwise R ys zs → Pointwise R xs zs
    Pointwise-trans [] [] [] h k = tt
    Pointwise-trans [] [] (z ∷ zs) h k = k
    Pointwise-trans [] (y ∷ ys) zs h k = absurd h
    Pointwise-trans (x ∷ xs) [] zs h k = absurd h
    Pointwise-trans (x ∷ xs) (y ∷ ys) [] h k = k
    Pointwise-trans (x ∷ xs) (y ∷ ys) (z ∷ zs) h k =
        (R_trans x y z h.0 k.0, Pointwise-trans xs ys zs h.1 k.1)

    pub Grows-trans : (xs ys zs : List A) → Grows R xs ys → Grows R ys zs → Grows R xs zs
    Grows-trans [] ys zs h k = tt
    Grows-trans (x ∷ xs) [] zs h k = absurd h
    Grows-trans (x ∷ xs) (y ∷ ys) [] h k = k
    Grows-trans (x ∷ xs) (y ∷ ys) (z ∷ zs) h k =
        (R_trans x y z h.0 k.0, Grows-trans xs ys zs h.1 k.1)

  -- What every step keeps holds of all rows afterwards.
  pub Pointwise-All {κ} :
      (P : A → Type κ)
      → ((x y : A) → R x y → P x → P y)
      → (xs ys : List A) → Pointwise R xs ys
      → All P xs
      → All P ys
  Pointwise-All P keep [] [] h all = tt
  Pointwise-All P keep [] (y ∷ ys) h all = absurd h
  Pointwise-All P keep (x ∷ xs) [] h all = absurd h
  Pointwise-All P keep (x ∷ xs) (y ∷ ys) h all =
      (keep x y h.0 all.0, Pointwise-All P keep xs ys h.1 all.1)
