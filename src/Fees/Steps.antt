-- ===== src/Fees/Steps.antt =====
-- The guarded updates of the shipping fee service are steps of the custody machine: what each
-- `where` lets through is what the step wants.
use project_logictic.Prelude.{
  ℕ, ◌≡◌, ◌∙◌, sym, true, Option, none, some, arith, Option-cases, inl, inr,
}
use project_logictic.Prelude.Int.{ℤ}
use project_logictic.Prelude.Eq.{int_beq_iff}
use project_logictic.Schema.{
  ShippingFeeTransactionStatus as FeeStatus, shipping_fee_transaction_status_eq,
}
use project_logictic.Store.{ShippingFeeTransaction, Number, int, other}
use project_logictic.Fees.Checks.{ShipmentSnapshot, is_exact_amount}
use project_logictic.Fees.Pending.{cancel_where, cancel_data}
use project_logictic.Fees.Collect.{collect_where, collect_data}
use project_logictic.Fees.Reconcile.{remit_where, remit_data, settle_where, settle_data}
use project_logictic.Fees.Dispute.{
  dispute_where, dispute_data, resolve_where, resolve_data, is_disputable,
}
use project_logictic.Fees.Custody.{
  Moves, InCustody, with_driver, handed_over, collect, remit, settle, dispute, resolve, cancel,
}

-- What the guard of `collectAt` says of the row that it lets through.
collect_guard :
    (shipment : ShipmentSnapshot) (fee row : ShippingFeeTransaction)
    → collect_where shipment fee row ≡ true
    → (row.status ≡ FeeStatus.pending)
      × (row.collected_amount ≡ none)
      × (row.collected_by_driver_id ≡ none)
      × (row.expected_amount ≡ fee.expected_amount)
unfolding collect_where
collect_guard shipment fee row passes =
    ground (arith, int_beq_iff row.expected_amount fee.expected_amount)

exact_amount_eq : (a expected : ℤ) → is_exact_amount (some (int a)) expected ≡ true → a ≡ expected
exact_amount_eq a expected h = ground (arith, int_beq_iff a expected)

pub collect_step :
    (shipment : ShipmentSnapshot) (fee : ShippingFeeTransaction) (driver : ℕ)
    (amount : Option Number) (at : ℕ)
    → is_exact_amount amount fee.expected_amount ≡ true
    → (row : ShippingFeeTransaction) → collect_where shipment fee row ≡ true
    → Moves row (collect_data driver amount at row)
unfolding collect_data
collect_step shipment fee driver (some (int a)) at exact row passes =
    let (pending, uncollected, undriven, same) = collect_guard shipment fee row passes in
    let e : a ≡ row.expected_amount = exact_amount_eq a fee.expected_amount exact ∙ sym same in
    rw e (collect driver at pending uncollected undriven)
collect_step shipment fee driver (some other) at exact row passes = cc
collect_step shipment fee driver none at exact row passes = cc

pub cancel_step :
    (fee : ShippingFeeTransaction) (at : ℕ) (row : ShippingFeeTransaction)
    → cancel_where fee row ≡ true
    → Moves row (cancel_data at row)
unfolding cancel_where cancel_data
cancel_step fee at row passes = grind (arith, cancel)

remit_guard :
    (fee row : ShippingFeeTransaction) (driver : ℕ)
    → remit_where fee driver row ≡ true
    → (row.status ≡ FeeStatus.collected)
      × (row.collected_amount ≡ some row.expected_amount)
      × (row.collected_by_driver_id ≡ some driver)
      × (row.remitted_amount ≡ none)
      × (row.remitted_by_driver_id ≡ none)
      × (row.expected_amount ≡ fee.expected_amount)
unfolding remit_where
remit_guard fee row driver passes = elim (Option-cases row.collected_amount) [
  | inl missing ↦ ground arith
  | inr (c, e) ↦ ground (
    arith,
    int_beq_iff c fee.expected_amount,
    int_beq_iff row.expected_amount fee.expected_amount,
  )
]

pub remit_step :
    (fee : ShippingFeeTransaction) (driver : ℕ) (amount : Option Number) (at : ℕ)
    → is_exact_amount amount fee.expected_amount ≡ true
    → (row : ShippingFeeTransaction) → remit_where fee driver row ≡ true
    → Moves row (remit_data driver amount at row)
unfolding remit_data
remit_step fee driver (some (int a)) at exact row passes =
    let (collected, full, by, unremitted, unhanded, same) = remit_guard fee row driver passes in
    let e : a ≡ row.expected_amount = exact_amount_eq a fee.expected_amount exact ∙ sym same in
    rw e (remit driver at collected full by unremitted unhanded)
remit_step fee driver (some other) at exact row passes = cc
remit_step fee driver none at exact row passes = cc

settle_guard :
    (fee row : ShippingFeeTransaction)
    → settle_where fee row ≡ true
    → (row.status ≡ FeeStatus.remitted)
      × (row.collected_amount ≡ some row.expected_amount)
      × (row.remitted_amount ≡ some row.expected_amount)
      × (row.settled_by_id ≡ none)
unfolding settle_where
settle_guard fee row passes = elim (Option-cases row.collected_amount) [
  | inl missing ↦ ground arith
  | inr (c, e) ↦ elim (Option-cases row.remitted_amount) [
    | inl missing ↦ ground arith
    | inr (r, e') ↦ ground (
      arith,
      int_beq_iff c fee.expected_amount,
      int_beq_iff r fee.expected_amount,
      int_beq_iff row.expected_amount fee.expected_amount,
    )
  ]
]

pub settle_step :
    (fee : ShippingFeeTransaction) (admin at : ℕ) (row : ShippingFeeTransaction)
    → settle_where fee row ≡ true
    → Moves row (settle_data admin at row)
unfolding settle_data
settle_step fee admin at row passes =
    let (remitted, full, handed, unsettled) = settle_guard fee row passes in
    settle admin at remitted full handed unsettled

pub disputable→InCustody : (status : FeeStatus) → is_disputable status ≡ true → InCustody status
unfolding is_disputable
disputable→InCustody FeeStatus.collected h = with_driver
disputable→InCustody FeeStatus.remitted h = handed_over
disputable→InCustody FeeStatus.pending h = cc
disputable→InCustody _ h = cc

dispute_guard :
    (fee row : ShippingFeeTransaction) → dispute_where fee row ≡ true → row.status ≡ fee.status
unfolding dispute_where
dispute_guard fee row passes =
    ground (arith, shipping_fee_transaction_status_eq.same_iff row.status fee.status)

pub dispute_step :
    (fee : ShippingFeeTransaction)
    → is_disputable fee.status ≡ true
    → (row : ShippingFeeTransaction) → dispute_where fee row ≡ true
    → Moves row (dispute_data row)
unfolding dispute_data
dispute_step fee open_to row passes =
    dispute (rw (dispute_guard fee row passes) (disputable→InCustody fee.status open_to))

pub resolve_step :
    (fee : ShippingFeeTransaction) (from : FeeStatus)
    → is_disputable from ≡ true
    → (row : ShippingFeeTransaction) → resolve_where fee row ≡ true
    → Moves row (resolve_data from row)
unfolding resolve_data resolve_where
resolve_step fee from open_to row passes =
    resolve from (ground arith) (disputable→InCustody from open_to)
