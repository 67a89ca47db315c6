-- ===== src/Prelude/Counts.antt =====
-- How many rows pass a test, and which is found first, after a change of the table.
use Prim.Native.Nat.{ℕ, ◌+◌, ◌≤◌}
use mathlib.Core.Path.{◌≡◌}
use mathlib.Core.Bool.{Bool, true, false}
use mathlib.Core.Option.{none, some}
use mathlib.Core.List.{List, [], ◌∷◌, ◌++◌}
use native.Mathlib.Omega.{arith}
use project_logictic.Prelude.Tests.{Bool-cases, if◌then◌else◌}
use mathlib.Core.Logic.{inl, inr}
use project_logictic.Prelude.Lists.{All, find_first, count_where, update_many, any_of}

-- A test as a count of one row.
abbrev pub as_number : Bool → ℕ
as_number b = if b then 1 else 0

module _ {ℓ} {A : Type ℓ} (p : A → Bool) where
  pub count_where-append :
      (xs ys : List A) → count_where p (xs ++ ys) ≡ count_where p xs + count_where p ys
  unfolding count_where
  count_where-append [] ys = omega arith
  count_where-append (x ∷ xs) ys = omega (arith, count_where-append xs ys)

  pub count_where-add :
      (xs : List A) (x : A) → count_where p (xs ++ (x ∷ [])) ≡ count_where p xs + as_number (p x)
  unfolding count_where
  count_where-add xs x = omega (arith, count_where-append xs (x ∷ []))

  pub count_where_of_any_of : (xs : List A) → any_of p xs ≡ false → count_where p xs ≡ 0
  unfolding count_where any_of
  count_where_of_any_of [] h = omega arith
  count_where_of_any_of (x ∷ xs) h = ground (arith, count_where_of_any_of xs)

  pub count_where_of_find_first : (xs : List A) → find_first p xs ≡ none → count_where p xs ≡ 0
  unfolding count_where find_first
  count_where_of_find_first [] h = omega arith
  count_where_of_find_first (x ∷ xs) h = ground (arith, count_where_of_find_first xs)

  -- A change that lets no new row pass adds none.
  pub count_where-update_many_le :
      (test : A → Bool) (f : A → A) (xs : List A)
      → ((x : A) → test x ≡ true → p (f x) ≡ true → p x ≡ true)
      → count_where p (update_many test f xs) ≤ count_where p xs
  unfolding count_where update_many
  count_where-update_many_le test f [] h = omega arith
  count_where-update_many_le test f (x ∷ xs) h =
      ground (arith, h x, count_where-update_many_le test f xs h)

  -- A row that is found and does not pass the test of the change is found afterwards, as it was.
  pub find_first-update_many_other :
      (test : A → Bool) (f : A → A) (xs : List A) {row : A}
      → ((x : A) → p (f x) ≡ p x)
      → find_first p xs ≡ some row
      → test row ≡ false
      → find_first p (update_many test f xs) ≡ some row
  unfolding find_first update_many
  find_first-update_many_other test f [] same e h = e
  find_first-update_many_other test f (x ∷ xs) {row} same e h =
      ground (arith, same x, find_first-update_many_other test f xs {row = row} same)

  -- A row that is found and passes is found afterwards, changed.
  pub find_first-update_many_self :
      (test : A → Bool) (f : A → A) (xs : List A) {row : A}
      → ((x : A) → p (f x) ≡ p x)
      → find_first p xs ≡ some row
      → test row ≡ true
      → find_first p (update_many test f xs) ≡ some (f row)
  unfolding find_first update_many
  find_first-update_many_self test f [] same e h = cc
  find_first-update_many_self test f (x ∷ xs) {row} same e h =
      ground (arith, same x, find_first-update_many_self test f xs {row = row} same)

  -- A row is added that passes only where none did before: at most one passes.
  pub count_where-append_one :
      (xs : List A) (new : A)
      → count_where p xs ≤ 1
      → (p new ≡ true → count_where p xs ≡ 0)
      → count_where p (xs ++ (new ∷ [])) ≤ 1
  unfolding count_where
  count_where-append_one xs new most free = ground (arith, count_where-append xs (new ∷ []))

  none_passes : (xs : List A) (c : A) → count_where p xs ≡ 0 → All (λ x. p x ≡ true → x ≡ c) xs
  unfolding count_where
  none_passes [] c h = tt
  none_passes (x ∷ xs) c h = ((λ passes. absurd (ground arith)), none_passes xs c (ground arith))

  -- Where at most one row passes, each that passes is the one that is found.
  pub only_one_passes :
      (xs : List A) (c : A)
      → count_where p xs ≤ 1
      → find_first p xs ≡ some c
      → All (λ x. p x ≡ true → x ≡ c) xs
  unfolding count_where find_first
  only_one_passes [] c most found = tt
  only_one_passes (x ∷ xs) c most found = elim (Bool-cases (p x)) [
    | inl passes ↦
        let q : some x ≡ some c = rw passes at found in
        ((λ _. cc q), none_passes xs c (ground arith))
    | inr fails ↦
        ((λ passes. absurd (ground arith)), only_one_passes xs c (ground arith) (rw fails at found))
  ]

  -- A change of one row moves the count of another test by as much as that row moves it.
  count_where-update_none :
      (test : A → Bool) (f : A → A) (xs : List A)
      → count_where test xs ≡ 0
      → count_where p (update_many test f xs) ≡ count_where p xs
  unfolding count_where update_many
  count_where-update_none test f [] none_passes = omega arith
  count_where-update_none test f (x ∷ xs) none_passes =
      ground (arith, count_where-update_none test f xs)

  pub count_where-update_one {κ} :
      (Q : A → Type κ) (test : A → Bool) (f : A → A) (gain loss : ℕ) (xs : List A)
      → ((x : A) → test x ≡ true → Q x → as_number (p x) + gain ≡ as_number (p (f x)) + loss)
      → All Q xs
      → count_where test xs ≡ 1
      → count_where p xs + gain ≡ count_where p (update_many test f xs) + loss
  unfolding count_where update_many
  count_where-update_one Q test f gain loss [] moves holds one = absurd (ground arith)
  count_where-update_one Q test f gain loss (x ∷ xs) moves holds one = elim (Bool-cases (test x)) [
    | inl passes ↦
        let moved = moves x passes holds.0 in ground (arith, count_where-update_none test f xs)
    | inr fails ↦
        let rest = count_where-update_one Q test f gain loss xs moves holds.1 in ground arith
  ]
