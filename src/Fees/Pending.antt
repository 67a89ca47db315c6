-- ===== src/Fees/Pending.antt =====
-- `createPending` and `cancelPending` of ShippingFeesService
-- (backend/src/modules/shipping-fees/shipping-fees.service.ts). The argument `others` is what other
-- transactions commit between the reads of a call and its guarded `updateMany`.
use project_logictic.Prelude.{ℕ, ◌&&◌, ◌||◌, Bool, none, some, [], ◌∷◌, ◌++◌, any_of}
use project_logictic.Prelude.Eq.{◌==◌, ◌!=◌, nat_eq}
use project_logictic.Schema.{
  shipping_fee_payer_name, ShippingFeeTransactionStatus as FeeStatus,
  shipping_fee_transaction_status_eq, shipping_fee_transaction_status_name,
}
use project_logictic.Store.{
  Store, ShippingFeeTransaction, AuditLog, word, identifier, date, Actor, ClientContext, Tx, pure,
  throw_if, branch, gets, modify, audit, ◌>>=◌, ◌>>◌, conflict, unique_violation,
  shipping_fee_state_invalid, shipping_fee_cancellation_conflict,
}
use project_logictic.Fees.Checks.{ShipmentSnapshot, assert_positive_integer, assert_snapshot}
use project_logictic.Fees.Table.{update_fees}

-- The columns that `createPending` leaves to their defaults.
unfoldable pub pending_fee : ℕ → ShipmentSnapshot → ShippingFeeTransaction
pending_fee new_id shipment = record {
  id = new_id;
  shipment_id = shipment.id;
  payer = shipment.shipping_fee_payer;
  expected_amount = shipment.total_fee;
  collected_amount = none;
  remitted_amount = none;
  paid_amount = none;
  status = FeeStatus.pending;
  collected_by_driver_id = none;
  remitted_by_driver_id = none;
  settled_by_id = none;
  collected_at = none;
  remitted_at = none;
  settled_at = none;
  paid_at = none;
  cancelled_at = none;
}

-- The primary key and the unique `shipmentId` refuse a second fee.
unfoldable pub create_pending : ℕ → ShipmentSnapshot → Tx ShippingFeeTransaction
unfolding assert_positive_integer
create_pending new_id shipment = do
  assert_positive_integer shipment.total_fee
  fees ← gets (λ s. s.fees)
  throw_if (any_of (λ fee. fee.id == new_id || fee.shipment_id == shipment.id) fees)
      unique_violation
  modify (λ s. record s { fees = s.fees ++ (pending_fee new_id shipment ∷ []) })
  pure (pending_fee new_id shipment)

-- The `where` and the `data` of the update in `cancelPending`.
unfoldable pub cancel_where : ShippingFeeTransaction → ShippingFeeTransaction → Bool
cancel_where fee row = row.id == fee.id && row.status == FeeStatus.pending

unfoldable pub cancel_data : ℕ → ShippingFeeTransaction → ShippingFeeTransaction
cancel_data at row = record row { status = FeeStatus.cancelled; cancelled_at = some at }

cancelled_audit : ShippingFeeTransaction → Actor → ℕ → ShipmentSnapshot → ClientContext → AuditLog
cancelled_audit fee actor at shipment context = record {
  actor_id = actor.id;
  actor_role = actor.role;
  action = "SHIPPING_FEE_CANCELLED";
  entity_type = "ShippingFeeTransaction";
  entity_id = fee.id;
  before = some (("status", word (shipping_fee_transaction_status_name fee.status)) ∷ []);
  after = some (("status", word "CANCELLED") ∷ ("cancelledAt", date at) ∷ []);
  metadata = some (
      ("shipmentId", identifier shipment.id)
      ∷ ("payer", word (shipping_fee_payer_name fee.payer))
      ∷ []);
  ip_address = context.ip_address;
  user_agent = context.user_agent;
}

unfoldable pub cancel_pending :
    (Store → Store) → ShipmentSnapshot → Actor → ℕ → ClientContext → Tx (Unit {0})
unfolding assert_snapshot cancel_where cancel_data cancelled_audit
cancel_pending others shipment actor at context = do
  fee ← assert_snapshot shipment
  branch (fee.status == FeeStatus.cancelled) (pure tt) (do
    throw_if (fee.status != FeeStatus.pending) (conflict shipping_fee_state_invalid)
    modify others
    count ← update_fees (cancel_where fee) (cancel_data at)
    throw_if (count != 1) (conflict shipping_fee_cancellation_conflict)
    audit (cancelled_audit fee actor at shipment context))
