-- ===== src/Fees/Refinement.antt =====
-- Every call of the shipping fee service keeps what the steps of the custody machine keep, whatever
-- other transactions commit between its reads and its guarded update.
use project_logictic.Prelude.{
  ℕ, ◌≡◌, Bool, true, Option, none, some, List, arith, Pointwise, update_many,
  update_many-Pointwise, Option-cases, Bool-cases, inl, inr,
}
use project_logictic.Text.{Text, trim}
use project_logictic.Schema.{ShippingFeeTransactionStatus as FeeStatus}
use project_logictic.Store.{
  Store, ShippingFeeTransaction, ShippingFeeDispute, Actor, ClientContext, Ensures, Number,
}
use project_logictic.Fees.Checks.{ShipmentSnapshot, is_exact_amount}
use project_logictic.Fees.Table.{fee_by_id}
use project_logictic.Fees.Audit.{driver_of_user}
use project_logictic.Fees.Pending.{cancel_pending, cancel_where, cancel_data}
use project_logictic.Fees.Collect.{
  CollectInput, collect_where, collect_data, collect_now, collect_not_due, collect_due, collect_at,
}
use project_logictic.Fees.Reconcile.{
  remit_where, remit_data, remit_now, remit, settle_where, settle_data, settle_now, settle,
}
use project_logictic.Fees.Dispute.{
  is_disputable, dispute_where, dispute_data, dispute_now, dispute, resolve_where, resolve_data,
  resolve_now, resolve_active, resolve_again, resolve_branch, resolve_dispute, latest_by,
  is_active_of,
}
use project_logictic.Fees.Custody.{Moves, stay}
use project_logictic.Fees.Steps.{
  collect_step, cancel_step, remit_step, settle_step, dispute_step, resolve_step,
}

module _ (P : List ShippingFeeTransaction → Type 0)
    (closed : (xs ys : List ShippingFeeTransaction) → Pointwise Moves xs ys → P xs → P ys)
    (others : Store → Store) (s : Store) (before : P s.fees) (during : P (others s).fees) where
  updated :
      (test : ShippingFeeTransaction → Bool)
      (change : ShippingFeeTransaction → ShippingFeeTransaction)
      → ((row : ShippingFeeTransaction) → test row ≡ true → Moves row (change row))
      → P (update_many test change (others s).fees)
  updated test change step =
      closed _ _ (update_many-Pointwise Moves (λ x. stay) test change (others s).fees step) during

  pub cancel_pending-keeps :
      (shipment : ShipmentSnapshot) (actor : Actor) (at : ℕ) (context : ClientContext)
      → Ensures (λ r. P r.1.fees) (cancel_pending others shipment actor at context s)
  unfolding cancel_pending
  cancel_pending-keeps shipment actor at context =
      elim (Option-cases shipment.shipping_fee_transaction) [
        | inl missing ↦ ground arith
        | inr (fee, e) ↦
            ground (arith, updated (cancel_where fee) (cancel_data at) (cancel_step fee at))
      ]

  collect_now-keeps :
      (input : CollectInput) (fee : ShippingFeeTransaction)
      → is_exact_amount input.amount fee.expected_amount ≡ true
      → Ensures (λ r. P r.1.fees) (collect_now others input fee s)
  unfolding collect_now
  collect_now-keeps input fee exact =
      let change = collect_data input.driver.id input.amount input.collected_at in
      ground (
        arith,
        updated (collect_where input.shipment fee) change
            (collect_step input.shipment fee input.driver.id input.amount input.collected_at exact),
      )

  collect_not_due-keeps :
      (input : CollectInput) (fee : ShippingFeeTransaction)
      → Ensures (λ r. P r.1.fees) (collect_not_due input fee s)
  unfolding collect_not_due
  collect_not_due-keeps input fee = ground arith

  collect_due-keeps :
      (input : CollectInput) (status : FeeStatus) (fee : ShippingFeeTransaction)
      → Ensures (λ r. P r.1.fees) (collect_due others input status fee s)
  unfolding collect_due
  collect_due-keeps input FeeStatus.pending fee =
      elim (Bool-cases (is_exact_amount input.amount fee.expected_amount)) [
        | inl exact ↦ rw exact (collect_now-keeps input fee exact)
        | inr wrong ↦ rw wrong tt
      ]
  collect_due-keeps input _ fee = ground arith

  pub collect_at-keeps :
      (input : CollectInput) → Ensures (λ r. P r.1.fees) (collect_at others input s)
  unfolding collect_at
  collect_at-keeps input = elim (Option-cases input.shipment.shipping_fee_transaction) [
    | inl missing ↦ ground arith
    | inr (fee, e) ↦
        ground (arith, collect_due-keeps input fee.status fee, collect_not_due-keeps input fee)
  ]

  remit_now-keeps :
      (actor : Actor) (fee : ShippingFeeTransaction) (driver : ℕ) (amount : Option Number) (now : ℕ)
      (context : ClientContext)
      → is_exact_amount amount fee.expected_amount ≡ true
      → Ensures (λ r. P r.1.fees) (remit_now others actor fee driver amount now context s)
  unfolding remit_now
  remit_now-keeps actor fee driver amount now context exact = ground (
    arith,
    updated (remit_where fee driver) (remit_data driver amount now)
        (remit_step fee driver amount now exact),
  )

  pub remit-keeps :
      (actor : Actor) (id : ℕ) (amount : Option Number) (now : ℕ) (context : ClientContext)
      → Ensures (λ r. P r.1.fees) (remit others actor id amount now context s)
  unfolding remit
  remit-keeps actor id amount now context = elim (Option-cases (fee_by_id id s)) [
    | inl missing ↦ ground arith
    | inr (fee, e) ↦ elim (Option-cases (driver_of_user actor.id s)) [
      | inl missing ↦ ground arith
      | inr (driver, e') ↦ ground (arith, remit_now-keeps actor fee driver.id amount now context)
    ]
  ]

  settle_now-keeps :
      (actor : Actor) (fee : ShippingFeeTransaction) (now : ℕ) (context : ClientContext)
      → Ensures (λ r. P r.1.fees) (settle_now others actor fee now context s)
  unfolding settle_now
  settle_now-keeps actor fee now context =
      ground (
        arith,
        updated (settle_where fee) (settle_data actor.id now) (settle_step fee actor.id now),
      )

  pub settle-keeps :
      (actor : Actor) (id now : ℕ) (context : ClientContext)
      → Ensures (λ r. P r.1.fees) (settle others actor id now context s)
  unfolding settle
  settle-keeps actor id now context = elim (Option-cases (fee_by_id id s)) [
    | inl missing ↦ ground arith
    | inr (fee, e) ↦ ground (arith, settle_now-keeps actor fee now context)
  ]

  dispute_now-keeps :
      (new_id : ℕ) (actor : Actor) (fee : ShippingFeeTransaction) (reason : Text) (now : ℕ)
      (context : ClientContext)
      → is_disputable fee.status ≡ true
      → Ensures (λ r. P r.1.fees) (dispute_now others new_id actor fee reason now context s)
  unfolding dispute_now
  dispute_now-keeps new_id actor fee reason now context open_to =
      ground (arith, updated (dispute_where fee) dispute_data (dispute_step fee open_to))

  pub dispute-keeps :
      (new_id : ℕ) (actor : Actor) (id : ℕ) (reason : Text) (now : ℕ) (context : ClientContext)
      → Ensures (λ r. P r.1.fees) (dispute others new_id actor id reason now context s)
  unfolding dispute
  dispute-keeps new_id actor id reason now context = elim (Option-cases (fee_by_id id s)) [
    | inl missing ↦ ground arith
    | inr (fee, e) ↦ ground (arith, dispute_now-keeps new_id actor fee (trim reason) now context)
  ]

  resolve_now-keeps :
      (actor : Actor) (fee : ShippingFeeTransaction) (active : ShippingFeeDispute) (note : Text)
      (now : ℕ) (context : ClientContext)
      → is_disputable active.from_status ≡ true
      → Ensures (λ r. P r.1.fees) (resolve_now others actor fee active note now context s)
  unfolding resolve_now
  resolve_now-keeps actor fee active note now context open_to = ground (
    arith,
    updated (resolve_where fee) (resolve_data active.from_status)
        (resolve_step fee active.from_status open_to),
  )

  resolve_active-keeps :
      (actor : Actor) (fee : ShippingFeeTransaction) (active : ShippingFeeDispute) (note : Text)
      (now : ℕ) (context : ClientContext)
      → Ensures (λ r. P r.1.fees) (resolve_active others actor fee active note now context s)
  unfolding resolve_active
  resolve_active-keeps actor fee active note now context =
      elim (Bool-cases (is_disputable active.from_status)) [
        | inl open_to ↦ ground (arith, resolve_now-keeps actor fee active note now context open_to)
        | inr closed_to ↦ ground arith
      ]

  resolve_again-keeps :
      (actor : Actor) (fee : ShippingFeeTransaction) (note : Text)
      → Ensures (λ r. P r.1.fees) (resolve_again actor fee note s)
  unfolding resolve_again
  resolve_again-keeps actor fee note = ground arith

  resolve_branch-keeps :
      (actor : Actor) (fee : ShippingFeeTransaction) (active : Option ShippingFeeDispute)
      (note : Text) (now : ℕ) (context : ClientContext)
      → Ensures (λ r. P r.1.fees) (resolve_branch others actor fee active note now context s)
  unfolding resolve_branch
  resolve_branch-keeps actor fee none note now context = resolve_again-keeps actor fee note
  resolve_branch-keeps actor fee (some active) note now context = ground (
    arith,
    resolve_active-keeps actor fee active note now context,
    resolve_again-keeps actor fee note,
  )

  pub resolve_dispute-keeps :
      (actor : Actor) (id : ℕ) (note : Text) (now : ℕ) (context : ClientContext)
      → Ensures (λ r. P r.1.fees) (resolve_dispute others actor id note now context s)
  unfolding resolve_dispute
  resolve_dispute-keeps actor id note now context = elim (Option-cases (fee_by_id id s)) [
    | inl missing ↦ ground arith
    | inr (fee, e) ↦ ground (
      arith,
      resolve_branch-keeps actor fee
          (latest_by (λ row. row.opened_at) (is_active_of fee.id) s.disputes) (trim note) now
          context,
    )
  ]
