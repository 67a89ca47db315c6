-- ===== src/Schema/Code.antt =====
-- Lists that number the values of an enumeration.
use project_logictic.Prelude.{ℕ, zero, suc, List, [], ◌∷◌}

-- The element at an index, or a default behind the end.
abbrev pub nth : {A : Type 0} → A → List A → ℕ → A
nth d [] n = d
nth d (x ∷ xs) zero = x
nth d (x ∷ xs) (suc n) = nth d xs n
