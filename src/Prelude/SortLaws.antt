-- ===== src/Prelude/SortLaws.antt =====
-- The sort is sorted and keeps the elements, and its first elements are all that a running list of
-- the best ones keeps.
use Prim.Native.Nat.{ℕ, zero, suc, ◌≤◌}
use mathlib.Core.Path.{◌≡◌, refl, sym, ap, ◌∙◌, subst}
use mathlib.Core.Logic.{inl, inr}
use mathlib.Core.Bool.{false}
use mathlib.Core.List.{List, [], ◌∷◌, ◌++◌, append-nil}
use native.Mathlib.Omega.{arith}
use project_logictic.Prelude.Tests.{if◌then◌else◌, ltb, Bool-cases}
use project_logictic.Prelude.Lists.{All, All-append, length}
use project_logictic.Prelude.Sort.{
  Comparison, is_after, IsOrder, insert_by, sort_from, sort, take, IsSorted, drop_last,
}

module _ {ℓ} {A : Type ℓ} (cmp : A → A → Comparison) where
  take-take-suc : (n : ℕ) (xs : List A) → take n (take (suc n) xs) ≡ take n xs
  unfolding take
  take-take-suc zero xs = refl
  take-take-suc (suc n) [] = refl
  take-take-suc (suc n) (x ∷ xs) = ap (◌∷◌ x) (take-take-suc n xs)

  take-cons_take : (n : ℕ) (y : A) (ys : List A) → take n (y ∷ take n ys) ≡ take n (y ∷ ys)
  unfolding take
  take-cons_take zero y ys = refl
  take-cons_take (suc n) y ys = ap (◌∷◌ y) (take-take-suc n ys)

  pub take-insert_by :
      (n : ℕ) (x : A) (xs : List A)
      → take n (insert_by cmp x (take n xs)) ≡ take n (insert_by cmp x xs)
  unfolding take insert_by
  take-insert_by zero x xs = refl
  take-insert_by (suc n) x [] = refl
  take-insert_by (suc n) x (y ∷ ys) = elim (Bool-cases (is_after (cmp y x))) [
    | inl late ↦ rw late (ap (◌∷◌ x) (take-cons_take n y ys))
    | inr early ↦ rw early (ap (◌∷◌ y) (take-insert_by n x ys))
  ]

  pub sort_from-append_one :
      (sorted xs : List A) (x : A)
      → sort_from cmp sorted (xs ++ (x ∷ [])) ≡ insert_by cmp x (sort_from cmp sorted xs)
  unfolding sort_from
  sort_from-append_one sorted [] x = refl
  sort_from-append_one sorted (y ∷ xs) x = sort_from-append_one (insert_by cmp y sorted) xs x

  pub length-insert_by : (x : A) (xs : List A) → length (insert_by cmp x xs) ≡ suc (length xs)
  unfolding insert_by
  length-insert_by x [] = refl
  length-insert_by x (y ∷ ys) = ground (arith, length-insert_by x ys)

  pub insert_by-All {κ} :
      (P : A → Type κ) (x : A) (xs : List A) → P x → All P xs → All P (insert_by cmp x xs)
  unfolding insert_by
  insert_by-All P x [] p ps = (p, tt)
  insert_by-All P x (y ∷ ys) p ps = elim (Bool-cases (is_after (cmp y x))) [
    | inl late ↦ rw late (p, ps)
    | inr early ↦ rw early (ps.0, insert_by-All P x ys p ps.1)
  ]

  pub take-All {κ} : (P : A → Type κ) (n : ℕ) (xs : List A) → All P xs → All P (take n xs)
  unfolding take
  take-All P zero xs h = tt
  take-All P (suc n) [] h = tt
  take-All P (suc n) (x ∷ xs) h = (h.0, take-All P n xs h.1)

  pub sort_from-All {κ} :
      (P : A → Type κ) (sorted xs : List A)
      → All P sorted
      → All P xs
      → All P (sort_from cmp sorted xs)
  unfolding sort_from
  sort_from-All P sorted [] hs h = hs
  sort_from-All P sorted (x ∷ xs) hs h =
      sort_from-All P (insert_by cmp x sorted) xs (insert_by-All P x sorted h.0 hs) h.1

  pub take-IsSorted : (n : ℕ) (xs : List A) → IsSorted cmp xs → IsSorted cmp (take n xs)
  unfolding take
  take-IsSorted zero xs h = tt
  take-IsSorted (suc n) [] h = tt
  take-IsSorted (suc n) (x ∷ xs) h = (take-All _ n xs h.0, take-IsSorted n xs h.1)

  -- One more than `n` elements lose their last one.
  pub drop_last-take : (n : ℕ) (xs : List A) → length xs ≡ suc n → drop_last xs ≡ take n xs
  unfolding drop_last take
  drop_last-take n [] e = absurd (omega arith)
  drop_last-take zero (x ∷ []) e = refl
  drop_last-take (suc n) (x ∷ []) e = absurd (omega arith)
  drop_last-take zero (x ∷ y ∷ ys) e = absurd (omega arith)
  drop_last-take (suc n) (x ∷ y ∷ ys) e = ap (◌∷◌ x) (drop_last-take n (y ∷ ys) (omega arith))

  pub take_all : (n : ℕ) (xs : List A) → length xs ≤ n → take n xs ≡ xs
  unfolding take
  take_all zero [] h = refl
  take_all (suc n) [] h = refl
  take_all (suc n) (x ∷ xs) h = ap (◌∷◌ x) (take_all n xs (omega arith))
  take_all zero (x ∷ xs) h = absurd (omega arith)

  pub length-take_le : (n : ℕ) (xs : List A) → length (take n xs) ≤ n
  unfolding take
  length-take_le zero xs = omega arith
  length-take_le (suc n) [] = omega arith
  length-take_le (suc n) (x ∷ xs) = omega (arith, length-take_le n xs)

  module _ (order : IsOrder cmp) where
    pub not_after_trans :
        (x y z : A)
        → is_after (cmp x y) ≡ false
        → is_after (cmp y z) ≡ false
        → is_after (cmp x z) ≡ false
    not_after_trans x y z h k = ground (
      arith,
      order.before_trans x y z,
      order.same_left x y z,
      order.same_left z y x,
      order.flips x y,
      order.flips y z,
      order.flips x z,
    )

    All-not_after :
        (x y : A) (ys : List A)
        → is_after (cmp x y) ≡ false
        → All (λ z. is_after (cmp y z) ≡ false) ys
        → All (λ z. is_after (cmp x z) ≡ false) ys
    All-not_after x y [] h hs = tt
    All-not_after x y (z ∷ zs) h hs = (not_after_trans x y z h hs.0, All-not_after x y zs h hs.1)

    insert_by-IsSorted : (x : A) (xs : List A) → IsSorted cmp xs → IsSorted cmp (insert_by cmp x xs)
    unfolding insert_by
    insert_by-IsSorted x [] h = (tt, tt)
    insert_by-IsSorted x (y ∷ ys) h = elim (Bool-cases (is_after (cmp y x))) [
      | inl late ↦ rw late (
          let earlier : is_after (cmp x y) ≡ false = ground (arith, order.flips x y) in
          ((earlier, All-not_after x y ys earlier h.0), h))
      | inr early ↦ rw early (insert_by-All _ x ys early h.0, insert_by-IsSorted x ys h.1)
    ]

    pub sort_from-IsSorted :
        (sorted xs : List A) → IsSorted cmp sorted → IsSorted cmp (sort_from cmp sorted xs)
    unfolding sort_from
    sort_from-IsSorted sorted [] h = h
    sort_from-IsSorted sorted (x ∷ xs) h =
        sort_from-IsSorted (insert_by cmp x sorted) xs (insert_by-IsSorted x sorted h)

  -- An element that is after none of the others goes behind them.
  insert_by_last :
      (x : A) (sorted : List A)
      → All (λ y. is_after (cmp y x) ≡ false) sorted
      → insert_by cmp x sorted ≡ sorted ++ (x ∷ [])
  unfolding insert_by
  insert_by_last x [] h = refl
  insert_by_last x (y ∷ ys) h = rw h.0 (ap (◌∷◌ y) (insert_by_last x ys h.1))

  -- The elements of one list are after none of another.
  abbrev pub AllBefore : List A → List A → Type 0
  AllBefore sorted [] = Unit
  AllBefore sorted (x ∷ xs) = All (λ y. is_after (cmp y x) ≡ false) sorted × AllBefore sorted xs

  AllBefore-append :
      (sorted xs : List A) (y : A)
      → AllBefore sorted xs
      → All (λ x. is_after (cmp y x) ≡ false) xs
      → AllBefore (sorted ++ (y ∷ [])) xs
  AllBefore-append sorted [] y h k = tt
  AllBefore-append sorted (x ∷ xs) y h k = (
    All-append (λ z. is_after (cmp z x) ≡ false) sorted (y ∷ []) h.0 (k.0, tt),
    AllBefore-append sorted xs y h.1 k.1,
  )

  append_one-append : (xs ys : List A) (y : A) → (xs ++ (y ∷ [])) ++ ys ≡ xs ++ (y ∷ ys)
  append_one-append [] ys y = refl
  append_one-append (x ∷ xs) ys y = ap (◌∷◌ x) (append_one-append xs ys y)

  sort_from_of_IsSorted :
      (sorted xs : List A)
      → AllBefore sorted xs
      → IsSorted cmp xs
      → sort_from cmp sorted xs ≡ sorted ++ xs
  unfolding sort_from
  sort_from_of_IsSorted sorted [] h k = sym (append-nil sorted)
  sort_from_of_IsSorted sorted (x ∷ xs) h k = rw (insert_by_last x sorted h.0) (
      sort_from_of_IsSorted (sorted ++ (x ∷ [])) xs (AllBefore-append sorted xs x h.1 k.0) k.1
      ∙ append_one-append sorted xs x)

  AllBefore-nil : (xs : List A) → AllBefore [] xs
  AllBefore-nil [] = tt
  AllBefore-nil (x ∷ xs) = (tt, AllBefore-nil xs)

  pub sort_of_IsSorted : (xs : List A) → IsSorted cmp xs → sort cmp xs ≡ xs
  unfolding sort
  sort_of_IsSorted xs h = sort_from_of_IsSorted [] xs (AllBefore-nil xs) h

  pub sort-append_one :
      (xs : List A) (x : A) → sort cmp (xs ++ (x ∷ [])) ≡ insert_by cmp x (sort cmp xs)
  unfolding sort
  sort-append_one xs x = sort_from-append_one [] xs x

  pub sort-IsSorted : IsOrder cmp → (xs : List A) → IsSorted cmp (sort cmp xs)
  unfolding sort
  sort-IsSorted order xs = sort_from-IsSorted order [] xs tt

  pub sort-All {κ} : (P : A → Type κ) (xs : List A) → All P xs → All P (sort cmp xs)
  unfolding sort
  sort-All P xs h = sort_from-All P [] xs tt h

  pop-take :
      (n : ℕ) (xs : List A)
      → length xs ≤ suc n
      → (if ltb n (length xs) then drop_last xs else xs) ≡ take n xs
  pop-take n xs h = elim (Bool-cases (ltb n (length xs))) [
    | inl full ↦ rw full (drop_last-take n xs (ground arith))
    | inr room ↦ rw room (sym (take_all n xs (ground arith)))
  ]

  pub take-sort-nil : (n : ℕ) → take n (sort cmp []) ≡ []
  unfolding take sort sort_from
  take-sort-nil zero = refl
  take-sort-nil (suc n) = refl

  insert_by-All_inv {κ} :
      (P : A → Type κ) (x : A) (xs : List A) → All P (insert_by cmp x xs) → P x × All P xs
  unfolding insert_by
  insert_by-All_inv P x [] h = h
  insert_by-All_inv P x (y ∷ ys) h = elim (Bool-cases (is_after (cmp y x))) [
    | inl late ↦ (rw late at h)
    | inr early ↦
        let split = insert_by-All_inv P x ys (rw early at h).1 in
        (split.0, ((rw early at h).0, split.1))
  ]

  sort_from-All_inv {κ} :
      (P : A → Type κ) (sorted xs : List A)
      → All P (sort_from cmp sorted xs)
      → All P sorted × All P xs
  unfolding sort_from
  sort_from-All_inv P sorted [] h = (h, tt)
  sort_from-All_inv P sorted (x ∷ xs) h =
      let rest = sort_from-All_inv P (insert_by cmp x sorted) xs h in
      let split = insert_by-All_inv P x sorted rest.0 in (split.1, (split.0, rest.1))

  pub All-of_sort {κ} : (P : A → Type κ) (xs : List A) → All P (sort cmp xs) → All P xs
  unfolding sort
  All-of_sort P xs h = (sort_from-All_inv P [] xs h).1

  -- One more element for the best `n`, by a sort and a `pop`.
  pub sort-take-append_one :
      IsOrder cmp
      → (n : ℕ) (seen : List A) (x : A)
      → (let sorted = sort cmp (take n (sort cmp seen) ++ (x ∷ [])) in
          if ltb n (length sorted) then drop_last sorted else sorted)
        ≡ take n (sort cmp (seen ++ (x ∷ [])))
  sort-take-append_one order n seen x =
      let best = take n (sort cmp seen) in
      let now : sort cmp (best ++ (x ∷ [])) ≡ insert_by cmp x best =
        sort-append_one best x
        ∙ ap (insert_by cmp x)
            (sort_of_IsSorted best (take-IsSorted n (sort cmp seen) (sort-IsSorted order seen))) in
      let short : length best ≤ n = length-take_le n (sort cmp seen) in
      let kept : take n (insert_by cmp x best) ≡ take n (sort cmp (seen ++ (x ∷ []))) =
        take-insert_by n x (sort cmp seen) ∙ ap (take n) (sym (sort-append_one seen x)) in
      let long : length (sort cmp (best ++ (x ∷ []))) ≤ suc n =
        subst (λ xs. length xs ≤ suc n) (sym now) (omega (arith, length-insert_by x best, short)) in
      pop-take n (sort cmp (best ++ (x ∷ []))) long ∙ ap (take n) now ∙ kept
