-- ===== src/Payments/Balance.antt =====
-- The books of the online payments: the attempts of a fee against its status.
use project_logictic.Prelude.{
  ℕ, ◌+◌, ◌≡◌, ◌≤◌, ◌++◌, ◌&&◌, Bool, true, false, some, List, [], ◌∷◌, arith, All, sym, ap,
  count_where, update_many, count_where-add, count_where-update_one, as_number, update_many-All,
  only_one_passes, any_of, find_first, count_where-append_one, count_where_of_any_of,
  count_where-update_many_le,
}
use mathlib.Core.Path.{subst}
use project_logictic.Prelude.Eq.{◌==◌, nat_eq, nat_beq_iff}
use project_logictic.Schema.{
  ShippingFeeTransactionStatus as FeeStatus, shipping_fee_transaction_status_eq,
  ShippingFeePaymentStatus as PaymentStatus, shipping_fee_payment_status_eq,
}
use project_logictic.Store.{Store, ShippingFeeTransaction, ShippingFeePayment}
use project_logictic.Payments.Create.{is_active_of}
use project_logictic.Payments.Checks.{is_active}

abbrev pub is_waiting : ℕ → ShippingFeeTransaction → Bool
is_waiting fee_id row = row.id == fee_id && row.status == FeeStatus.payment_pending

abbrev pub is_paid : ℕ → ShippingFeeTransaction → Bool
is_paid fee_id row = row.id == fee_id && row.status == FeeStatus.paid

abbrev pub is_success_of : ℕ → ShippingFeePayment → Bool
is_success_of fee_id row =
    row.shipping_fee_transaction_id == fee_id && row.status == PaymentStatus.succeeded

-- A paid fee has been paid in full.
abbrev pub PaidOf : FeeStatus → ShippingFeeTransaction → Type 0
PaidOf FeeStatus.paid fee = fee.paid_amount ≡ some fee.expected_amount
PaidOf _ fee = Unit

pub record Balanced (fees : List ShippingFeeTransaction) (payments : List ShippingFeePayment)
    : Type 0 where
  pub waiting :
      (fee_id : ℕ)
      → count_where (is_active_of fee_id) payments ≡ count_where (is_waiting fee_id) fees
  pub paid :
      (fee_id : ℕ) → count_where (is_success_of fee_id) payments ≡ count_where (is_paid fee_id) fees
  pub in_full : All (λ fee. PaidOf fee.status fee) fees
  pub unique_fees : (id : ℕ) → count_where (λ row. row.id == id) fees ≤ 1
  pub unique_payments : (id : ℕ) → count_where (λ row. row.id == id) payments ≤ 1

abbrev pub IsBalanced : Store → Type 0
IsBalanced s = Balanced s.fees s.payments

-- How a change of one fee moves the counts: one that leaves, and one that joins.
fee_moves :
    (k id : ℕ) (before after : FeeStatus) (row changed : ShippingFeeTransaction)
    (status : FeeStatus)
    → row.id ≡ id
    → changed.id ≡ row.id
    → row.status ≡ before
    → changed.status ≡ after
    → as_number (row.id == k && row.status == status) + as_number (id == k && after == status)
      ≡ as_number (changed.id == k && changed.status == status)
        + as_number (id == k && before == status)
fee_moves k id before after row changed status same kept was is = ground arith

payment_moves :
    (k id : ℕ) (row changed : ShippingFeePayment)
    → row.shipping_fee_transaction_id ≡ id
    → changed.shipping_fee_transaction_id ≡ row.shipping_fee_transaction_id
    → is_active row.status ≡ true
    → is_active changed.status ≡ false
    → as_number (is_active_of k row) + 0 ≡ as_number (is_active_of k changed) + as_number (id == k)
unfolding is_active_of
payment_moves k id row changed same kept was is = ground arith

success_moves :
    (k id : ℕ) (row changed : ShippingFeePayment) (after : PaymentStatus)
    → row.shipping_fee_transaction_id ≡ id
    → changed.shipping_fee_transaction_id ≡ row.shipping_fee_transaction_id
    → is_active row.status ≡ true
    → changed.status ≡ after
    → as_number (is_success_of k row) + as_number (id == k && after == PaymentStatus.succeeded)
      ≡ as_number (is_success_of k changed) + 0
unfolding is_active
success_moves k id row changed after same kept was is = ground arith

stays :
    (k : ℕ) (row changed : ShippingFeePayment)
    → changed.shipping_fee_transaction_id ≡ row.shipping_fee_transaction_id
    → is_active row.status ≡ true
    → is_active changed.status ≡ true
    → (as_number (is_active_of k row) + 0 ≡ as_number (is_active_of k changed) + 0)
      × (as_number (is_success_of k row) + 0 ≡ as_number (is_success_of k changed) + 0)
unfolding is_active_of is_active
stays k row changed kept was is = ground arith

All-Unit : {A : Type 0} (rows : List A) → All (λ _. Unit {0}) rows
All-Unit [] = tt
All-Unit (row ∷ rows) = (tt, All-Unit rows)

module _ {fees : List ShippingFeeTransaction} {payments : List ShippingFeePayment}
    (balanced : Balanced fees payments) where
  -- A change of one fee moves the count of those that wait, and of those that are paid.
  fees_move :
      (id : ℕ) (before after : FeeStatus) (test : ShippingFeeTransaction → Bool)
      (change : ShippingFeeTransaction → ShippingFeeTransaction) (k : ℕ) (status : FeeStatus)
      → ((row : ShippingFeeTransaction) → test row ≡ true → (row.id ≡ id) × (row.status ≡ before))
      → ((row : ShippingFeeTransaction)
          → ((change row).id ≡ row.id) × ((change row).status ≡ after))
      → count_where test fees ≡ 1
      → count_where (λ row. row.id == k && row.status == status) fees
          + as_number (id == k && after == status)
        ≡ count_where (λ row. row.id == k && row.status == status) (update_many test change fees)
          + as_number (id == k && before == status)
  fees_move id before after test change k status guard changed one =
      count_where-update_one (λ row. row.id == k && row.status == status)
        (λ fee. PaidOf fee.status fee) test change (as_number (id == k && after == status))
        (as_number (id == k && before == status)) fees
        (λ row passes _.
          fee_moves k id before after row (change row) status (guard row passes).0 (changed row).0
            (guard row passes).1 (changed row).1)
        balanced.in_full one

  fees_unique :
      (test : ShippingFeeTransaction → Bool)
      (change : ShippingFeeTransaction → ShippingFeeTransaction) (k : ℕ)
      → ((row : ShippingFeeTransaction) → (change row).id ≡ row.id)
      → count_where (λ row. row.id == k) (update_many test change fees) ≤ 1
  fees_unique test change k same = omega (
    arith,
    balanced.unique_fees k,
    count_where-update_many_le (λ row. row.id == k) test change fees
        (λ row _ passes. rw (← same row) passes),
  )

  payments_unique :
      (test : ShippingFeePayment → Bool) (change : ShippingFeePayment → ShippingFeePayment) (k : ℕ)
      → ((row : ShippingFeePayment) → (change row).id ≡ row.id)
      → count_where (λ row. row.id == k) (update_many test change payments) ≤ 1
  payments_unique test change k same = omega (
    arith,
    balanced.unique_payments k,
    count_where-update_many_le (λ row. row.id == k) test change payments
        (λ row _ passes. rw (← same row) passes),
  )

  -- An attempt is added, and its fee starts to wait.
  pub start-Balanced :
      (new : ShippingFeePayment) (test : ShippingFeeTransaction → Bool)
      (change : ShippingFeeTransaction → ShippingFeeTransaction)
      → new.status ≡ PaymentStatus.creating
      → any_of (λ row. row.id == new.id) payments ≡ false
      → count_where test fees ≡ 1
      → ((row : ShippingFeeTransaction)
          → test row ≡ true
          → (row.id ≡ new.shipping_fee_transaction_id) × (row.status ≡ FeeStatus.pending))
      → ((row : ShippingFeeTransaction)
          → ((change row).id ≡ row.id) × ((change row).status ≡ FeeStatus.payment_pending))
      → Balanced (update_many test change fees) (payments ++ (new ∷ []))
  unfolding is_active_of
  start-Balanced new test change creating fresh one guard changed =
      let j = new.shipping_fee_transaction_id in
      record {
        waiting = λ k.
            let moved =
              fees_move j FeeStatus.pending FeeStatus.payment_pending test change k
                FeeStatus.payment_pending guard changed one in
            ground (arith, balanced.waiting k, count_where-add (is_active_of k) payments new);
        paid = λ k.
            let moved =
              fees_move j FeeStatus.pending FeeStatus.payment_pending test change k FeeStatus.paid
                guard changed one in
            ground (arith, balanced.paid k, count_where-add (is_success_of k) payments new);
        in_full =
            update_many-All (λ fee. PaidOf fee.status fee) test change fees
              (λ row _ _. subst (λ status. PaidOf status (change row)) (sym (changed row).1) tt)
              balanced.in_full;
        unique_fees = λ k. fees_unique test change k (λ row. (changed row).0);
        unique_payments = λ k.
            count_where-append_one (λ row. row.id == k) payments new (balanced.unique_payments k)
              (λ passes.
                count_where_of_any_of (λ row. row.id == k) payments
                  (subst (λ c. any_of (λ row. row.id == c) payments ≡ false)
                    ((nat_beq_iff new.id k).0 passes) fresh));
      }

  -- An active attempt is closed, and its fee waits no more.
  pub close-Balanced :
      (payment : ShippingFeePayment) (after_fee : FeeStatus) (after_payment : PaymentStatus)
      (test : ShippingFeeTransaction → Bool)
      (change : ShippingFeeTransaction → ShippingFeeTransaction) (ptest : ShippingFeePayment → Bool)
      (pchange : ShippingFeePayment → ShippingFeePayment)
      → find_first (λ row. row.id == payment.id) payments ≡ some payment
      → is_active after_payment ≡ false
      → (after_fee == FeeStatus.payment_pending) ≡ false
      → (after_fee == FeeStatus.paid) ≡ (after_payment == PaymentStatus.succeeded)
      → count_where test fees ≡ 1
      → count_where ptest payments ≡ 1
      → ((row : ShippingFeeTransaction)
          → test row ≡ true
          → (row.id ≡ payment.shipping_fee_transaction_id)
            × (row.status ≡ FeeStatus.payment_pending))
      → ((row : ShippingFeeTransaction)
          → ((change row).id ≡ row.id) × ((change row).status ≡ after_fee))
      → ((row : ShippingFeeTransaction) → test row ≡ true → PaidOf after_fee (change row))
      → ((row : ShippingFeePayment)
          → ptest row ≡ true
          → ((row.id == payment.id) ≡ true) × (is_active row.status ≡ true))
      → ((row : ShippingFeePayment)
          → ((pchange row).id ≡ row.id)
            × ((pchange row).shipping_fee_transaction_id ≡ row.shipping_fee_transaction_id)
            × ((pchange row).status ≡ after_payment))
      → Balanced (update_many test change fees) (update_many ptest pchange payments)
  unfolding is_active_of
  close-Balanced payment after_fee after_payment test change ptest pchange found inactive moved_on
        agree one pone guard changed full pguard pchanged =
      let j = payment.shipping_fee_transaction_id in
      let only =
        only_one_passes (λ row. row.id == payment.id) payments payment
          (balanced.unique_payments payment.id) found in
      let fee_of : (row : ShippingFeePayment)
          → ptest row ≡ true
          → ((row.id == payment.id) ≡ true → row ≡ payment)
          → row.shipping_fee_transaction_id ≡ j =
        λ row passes same.
          ap (λ (p : ShippingFeePayment). p.shipping_fee_transaction_id)
            (same (pguard row passes).0) in
      let kept : (row : ShippingFeePayment)
          → (pchange row).shipping_fee_transaction_id ≡ row.shipping_fee_transaction_id =
        λ row. let (_, fee, _) = pchanged row in fee in
      let becomes : (row : ShippingFeePayment) → (pchange row).status ≡ after_payment =
        λ row. let (_, _, status) = pchanged row in status in
      record {
        waiting = λ k.
            let moved =
              fees_move j FeeStatus.payment_pending after_fee test change k
                FeeStatus.payment_pending guard changed one in
            let pmoved =
              count_where-update_one (is_active_of k)
                (λ row. (row.id == payment.id) ≡ true → row ≡ payment) ptest pchange 0
                (as_number (j == k)) payments
                (λ row passes same.
                  payment_moves k j row (pchange row) (fee_of row passes same) (kept row)
                    (pguard row passes).1
                    (subst (λ status. is_active status ≡ false) (sym (becomes row)) inactive))
                only pone in
            ground (arith, balanced.waiting k);
        paid = λ k.
            let moved =
              fees_move j FeeStatus.payment_pending after_fee test change k FeeStatus.paid guard
                changed one in
            let pmoved =
              count_where-update_one (is_success_of k)
                (λ row. (row.id == payment.id) ≡ true → row ≡ payment) ptest pchange
                (as_number (j == k && after_payment == PaymentStatus.succeeded)) 0 payments
                (λ row passes same.
                  success_moves k j row (pchange row) after_payment (fee_of row passes same)
                    (kept row) (pguard row passes).1 (becomes row))
                only pone in
            ground (arith, balanced.paid k);
        in_full =
            update_many-All (λ fee. PaidOf fee.status fee) test change fees
              (λ row passes _.
                subst (λ status. PaidOf status (change row)) (sym (changed row).1)
                  (full row passes))
              balanced.in_full;
        unique_fees = λ k. fees_unique test change k (λ row. (changed row).0);
        unique_payments = λ k. payments_unique ptest pchange k (λ row. (pchanged row).0);
      }

  -- An active attempt goes on as an active one.
  pub accept-Balanced :
      (test : ShippingFeePayment → Bool) (change : ShippingFeePayment → ShippingFeePayment)
      → count_where test payments ≡ 1
      → ((row : ShippingFeePayment) → test row ≡ true → is_active row.status ≡ true)
      → ((row : ShippingFeePayment)
          → ((change row).id ≡ row.id)
            × ((change row).shipping_fee_transaction_id ≡ row.shipping_fee_transaction_id)
            × (is_active (change row).status ≡ true))
      → Balanced fees (update_many test change payments)
  accept-Balanced test change one active changed = record {
    waiting = λ k.
        let moved =
          count_where-update_one (is_active_of k) (λ _. Unit) test change 0 0 payments
            (λ row passes _.
              let (_, fee, is) = changed row in
              (stays k row (change row) fee (active row passes) is).0)
            (All-Unit payments) one in
        ground (arith, balanced.waiting k);
    paid = λ k.
        let moved =
          count_where-update_one (is_success_of k) (λ _. Unit) test change 0 0 payments
            (λ row passes _.
              let (_, fee, is) = changed row in
              (stays k row (change row) fee (active row passes) is).1)
            (All-Unit payments) one in
        ground (arith, balanced.paid k);
    in_full = balanced.in_full;
    unique_fees = balanced.unique_fees;
    unique_payments =
        λ k. payments_unique test change k (λ row. let (id, _, _) = changed row in id);
  }
