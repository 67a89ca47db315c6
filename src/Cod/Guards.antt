-- ===== src/Cod/Guards.antt =====
-- What the guards of CodService's updates let through.
use project_logictic.Prelude.{
  ℕ, ◌≡◌, refl, ◌∙◌, sym, ap, Bool, true, false, Option, some, arith, inl, inr, Option-cases,
}
use mathlib.Core.Path.{subst}
use project_logictic.Prelude.Int.{ℤ}
use project_logictic.Prelude.Eq.{◌==◌, nat_eq, int_beq_iff}
use project_logictic.Text.{Text}
use project_logictic.Schema.{CodTransactionStatus}
use project_logictic.Store.{CodTransaction, CodRemittance}
use project_logictic.Cod.Checks.{is_full_amount}
use project_logictic.Cod.Handover.{
  is_pending_of, review_where, review_data, remitted_where, remitted_data, settle_where,
  settle_data,
}
use project_logictic.Cod.Invariant.{AmountsOf}

-- The amounts of a COD that has passed `checkAmount`.
pub full_amount :
    (cod : CodTransaction) (amount : ℤ)
    → is_full_amount cod (some amount) ≡ true
    → (amount ≡ cod.expected_amount) × (cod.collected_amount ≡ some cod.expected_amount)
full_amount cod amount h = elim (Option-cases cod.collected_amount) [
  | inl missing ↦ ground arith
  | inr (c, e) ↦
      ground (arith, int_beq_iff amount cod.expected_amount, int_beq_iff c cod.expected_amount)
]

pub remitted_guard :
    (cod row : CodTransaction)
    → remitted_where cod row ≡ true
    → ((row.id == cod.id) ≡ true) × (row.status ≡ CodTransactionStatus.collected)
unfolding remitted_where
remitted_guard cod row h = ground arith

pub settle_guard :
    (cod row : CodTransaction)
    → settle_where cod row ≡ true
    → ((row.id == cod.id) ≡ true) × (row.status ≡ CodTransactionStatus.remitted)
unfolding settle_where
settle_guard cod row h = ground arith

pub review_closes :
    (id version : ℕ) (confirm : Bool) (admin : ℕ) (reason : Option Text) (now k : ℕ)
    (row : CodRemittance)
    → review_where id version row ≡ true
    → is_pending_of k (review_data confirm admin reason now row) ≡ true
    → is_pending_of k row ≡ true
unfolding review_where review_data is_pending_of
review_closes id version confirm admin reason now k row h p = ground arith

pub settle_spares :
    (cod row : CodTransaction)
    → row.status ≡ CodTransactionStatus.settled
    → settle_where cod row ≡ false
unfolding settle_where
settle_spares cod row settled = ground arith

pub settle_same_id : (now : ℕ) (row : CodTransaction) → (settle_data now row).id ≡ row.id
unfolding settle_data
settle_same_id now row = refl

pub settle_amounts :
    (cod : CodTransaction) (now : ℕ) (row : CodTransaction)
    → settle_where cod row ≡ true
    → AmountsOf row.status row
    → AmountsOf (settle_data now row).status (settle_data now row)
unfolding settle_data
settle_amounts cod now row passes amounts =
    subst (λ status. AmountsOf status row) (settle_guard cod row passes).1 amounts

pub remitted_spares :
    (cod row : CodTransaction)
    → row.status ≡ CodTransactionStatus.settled
    → remitted_where cod row ≡ false
unfolding remitted_where
remitted_spares cod row settled = ground arith

pub remitted_same_id :
    (amount : ℤ) (now : ℕ) (row : CodTransaction) → (remitted_data amount now row).id ≡ row.id
unfolding remitted_data
remitted_same_id amount now row = refl

pub remitted_amounts :
    (cod : CodTransaction) (amount : ℤ) (now : ℕ) (row : CodTransaction)
    → is_full_amount cod (some amount) ≡ true
    → remitted_where cod row ≡ true
    → ((row.id == cod.id) ≡ true → row ≡ cod)
    → AmountsOf (remitted_data amount now row).status (remitted_data amount now row)
unfolding remitted_data
remitted_amounts cod amount now row full passes same =
    let e : row ≡ cod = same (remitted_guard cod row passes).0 in
    let (due, collected) = full_amount cod amount full in
    (
      ap (λ (c : CodTransaction). c.collected_amount) e
          ∙ collected
          ∙ ap (λ (c : CodTransaction). some c.expected_amount) (sym e),
      ap some (due ∙ ap (λ (c : CodTransaction). c.expected_amount) (sym e)),
    )
