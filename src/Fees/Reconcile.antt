-- ===== src/Fees/Reconcile.antt =====
-- `remit` and `settle` of ShippingFeesService
-- (backend/src/modules/shipping-fees/shipping-fees.service.ts). The argument `others` is what other
-- transactions commit between the reads of a call and its guarded `updateMany`. The result is the
-- fee's row; the names that the response adds to it are left out.
use project_logictic.Prelude.{
  ℕ, ◌&&◌, Bool, true, false, Option, some, [], ◌∷◌, not, is_none, is_some,
}
use project_logictic.Prelude.Eq.{◌==◌, ◌!=◌, nat_eq, int_eq, option_eq, list_eq}
use project_logictic.Schema.{
  ShippingFeeTransactionStatus as FeeStatus, shipping_fee_transaction_status_eq,
}
use project_logictic.Store.{
  Store, ShippingFeeTransaction, AuditLog, identifier, date, number, Actor, ClientContext, Number,
  Tx, throw_if, branch, gets, modify, or_throw, audit, ◌>>=◌, ◌>>◌, not_found, conflict,
  shipping_fee_transaction_not_found, shipping_fee_collection_not_found,
  shipping_fee_remittance_conflict, shipping_fee_state_invalid, shipping_fee_dispute_active,
  shipping_fee_concurrent_modification,
}
use project_logictic.Fees.Checks.{
  assert_driver_role, assert_admin, assert_exact_amount, assert_collected_integrity,
  assert_remitted_integrity, is_amount,
}
use project_logictic.Fees.Table.{or_null, amount_value, update_fees, fee_by_id}
use project_logictic.Fees.Audit.{reconcile_audit, status_entry, driver_of_user, find_fee}

-- `REMITTED`, `SETTLED` or `DISPUTED`
abbrev is_past_remittance : FeeStatus → Bool
is_past_remittance FeeStatus.remitted = true
is_past_remittance FeeStatus.settled = true
is_past_remittance FeeStatus.disputed = true
is_past_remittance _ = false

-- The remittance that a retry asks for stands in the row already.
unfoldable pub is_same_remittance : ShippingFeeTransaction → Option Number → ℕ → Bool
is_same_remittance fee amount driver_id =
    is_amount fee.remitted_amount amount
    && fee.remitted_by_driver_id == some driver_id
    && is_some fee.remitted_at

unfoldable pub remit_where : ShippingFeeTransaction → ℕ → ShippingFeeTransaction → Bool
remit_where fee driver_id row =
    row.id == fee.id
    && row.status == FeeStatus.collected
    && row.expected_amount == fee.expected_amount
    && row.collected_amount == some fee.expected_amount
    && row.collected_by_driver_id == some driver_id
    && is_none row.remitted_amount
    && is_none row.remitted_by_driver_id
    && is_none row.remitted_at

unfoldable pub remit_data : ℕ → Option Number → ℕ → ShippingFeeTransaction → ShippingFeeTransaction
remit_data driver_id amount at row = record row {
  status = FeeStatus.remitted;
  remitted_amount = amount_value amount;
  remitted_by_driver_id = some driver_id;
  remitted_at = some at;
}

remit_audit : Actor → ClientContext → ShippingFeeTransaction → ℕ → Option Number → ℕ → AuditLog
remit_audit actor context fee driver_id amount at =
    reconcile_audit actor context "SHIPPING_FEE_REMITTED" fee.id
      (status_entry fee.status ∷ ("remittedAmount", or_null number fee.remitted_amount) ∷ [])
      (status_entry FeeStatus.remitted
        ∷ ("remittedAmount", or_null number (amount_value amount))
        ∷ ("remittedByDriverId", identifier driver_id)
        ∷ ("remittedAt", date at)
        ∷ [])
      (("shipmentId", identifier fee.shipment_id) ∷ [])

-- The guarded update of `remit`, and what follows it.
unfoldable pub remit_now :
    (Store → Store)
    → Actor
    → ShippingFeeTransaction
    → ℕ
    → Option Number
    → ℕ
    → ClientContext
    → Tx ShippingFeeTransaction
unfolding remit_where remit_data is_same_remittance remit_audit
remit_now others actor fee driver_id amount now context = do
  modify others
  count ← update_fees (remit_where fee driver_id) (remit_data driver_id amount now)
  branch (count != 1)
      ((do
        latest ← find_fee fee.id
        throw_if
            (not (is_same_remittance latest amount driver_id && is_past_remittance latest.status))
            (conflict shipping_fee_concurrent_modification)
        find_fee fee.id))
      (do audit (remit_audit actor context fee driver_id amount now); find_fee fee.id)

unfoldable pub remit :
    (Store → Store) → Actor → ℕ → Option Number → ℕ → ClientContext → Tx ShippingFeeTransaction
unfolding assert_driver_role assert_exact_amount assert_collected_integrity is_same_remittance
remit others actor id amount now context = do
  assert_driver_role actor
  fee ← or_throw (← gets (fee_by_id id)) (not_found shipping_fee_transaction_not_found)
  driver ← or_throw (← gets (driver_of_user actor.id)) (not_found shipping_fee_collection_not_found)
  throw_if (fee.collected_by_driver_id != some driver.id)
      (not_found shipping_fee_collection_not_found)
  assert_exact_amount amount fee.expected_amount
  assert_collected_integrity fee
  branch (is_past_remittance fee.status)
      ((do
        throw_if (not (is_same_remittance fee amount driver.id))
            (conflict shipping_fee_remittance_conflict)
        find_fee fee.id))
      (do
        throw_if (fee.status != FeeStatus.collected) (conflict shipping_fee_state_invalid)
        remit_now others actor fee driver.id amount now context)

unfoldable pub settle_where : ShippingFeeTransaction → ShippingFeeTransaction → Bool
settle_where fee row =
    row.id == fee.id
    && row.status == FeeStatus.remitted
    && row.expected_amount == fee.expected_amount
    && row.collected_amount == some fee.expected_amount
    && row.remitted_amount == some fee.expected_amount
    && is_none row.settled_by_id
    && is_none row.settled_at

unfoldable pub settle_data : ℕ → ℕ → ShippingFeeTransaction → ShippingFeeTransaction
settle_data admin_id at row = record row {
  status = FeeStatus.settled;
  settled_by_id = some admin_id;
  settled_at = some at;
}

settle_audit : Actor → ClientContext → ShippingFeeTransaction → ℕ → AuditLog
settle_audit actor context fee at =
    reconcile_audit actor context "SHIPPING_FEE_SETTLED" fee.id (status_entry fee.status ∷ [])
      (status_entry FeeStatus.settled
        ∷ ("settledById", identifier actor.id)
        ∷ ("settledAt", date at)
        ∷ [])
      (("shipmentId", identifier fee.shipment_id) ∷ ("amount", number fee.expected_amount) ∷ [])

unfoldable pub settle_now :
    (Store → Store) → Actor → ShippingFeeTransaction → ℕ → ClientContext → Tx ShippingFeeTransaction
unfolding settle_where settle_data settle_audit
settle_now others actor fee now context = do
  modify others
  count ← update_fees (settle_where fee) (settle_data actor.id now)
  branch (count != 1)
      ((do
        latest ← find_fee fee.id
        throw_if (latest.status != FeeStatus.settled)
            (conflict shipping_fee_concurrent_modification)
        find_fee fee.id))
      (do audit (settle_audit actor context fee now); find_fee fee.id)

unfoldable pub settle : (Store → Store) → Actor → ℕ → ℕ → ClientContext → Tx ShippingFeeTransaction
unfolding assert_admin assert_remitted_integrity
settle others actor id now context = do
  assert_admin actor
  fee ← or_throw (← gets (fee_by_id id)) (not_found shipping_fee_transaction_not_found)
  branch (fee.status == FeeStatus.settled) ((do assert_remitted_integrity fee; find_fee fee.id)) (do
    throw_if (fee.status == FeeStatus.disputed) (conflict shipping_fee_dispute_active)
    throw_if (fee.status != FeeStatus.remitted) (conflict shipping_fee_state_invalid)
    assert_remitted_integrity fee
    settle_now others actor fee now context)
