-- ===== src/Payments/Checks.antt =====
-- The assertions and the rows of ShippingFeePaymentsService
-- (backend/src/modules/shipping-fees/payments/shipping-fee-payments.service.ts).
use project_logictic.Prelude.{
  ℕ, ◌&&◌, ◌||◌, Bool, true, false, Option, none, some, not, is_none, is_some, find_first,
  count_where, update_many,
}
use project_logictic.Prelude.Eq.{◌==◌, ◌!=◌, nat_eq, int_eq, option_eq, list_eq}
use project_logictic.Text.{Text}
use project_logictic.Schema.{
  UserRole, user_role_eq, ShipmentStatus, shipment_status_eq, ShippingFeePayer,
  shipping_fee_payer_eq, ShippingFeeTransactionStatus as FeeStatus,
  shipping_fee_transaction_status_eq, ShippingFeePaymentStatus as PaymentStatus,
}
use project_logictic.Store.{
  Store, Shipment, ShippingFeeTransaction, ShippingFeePayment, Actor, Tx, pure, throw_if, or_throw,
  gets, modify, ◌>>=◌, ◌>>◌, Code, Exception, conflict, forbidden, not_found, service_unavailable,
  record_not_found, shipping_fee_payment_customer_required, shipping_fee_payment_not_found,
  shipping_fee_payment_provider_unavailable, payment_provider_disabled, shipping_fee_already_paid,
  shipping_fee_payment_already_pending, shipping_fee_payment_not_available,
  shipping_fee_payment_not_due, shipping_fee_snapshot_invalid,
  shipping_fee_payment_ownership_invalid, shipping_fee_payment_state_conflict,
  shipping_fee_payment_concurrent_modification,
}
use project_logictic.Fees.Checks.{is_positive_integer}
use project_logictic.Fees.Table.{fee_by_id}

abbrev pub payment_not_found : Exception
payment_not_found = not_found shipping_fee_payment_not_found

abbrev pub provider_unavailable : Exception
provider_unavailable = service_unavailable shipping_fee_payment_provider_unavailable

abbrev pub concurrent_modification : Exception
concurrent_modification = conflict shipping_fee_payment_concurrent_modification

-- A payment with the fee and the shipment that `paymentInclude` joins to it.
pub record PaymentEntity : Type 0 where
  pub payment : ShippingFeePayment
  pub fee : ShippingFeeTransaction
  pub shipment : Shipment

-- What the configured provider says of itself.
pub record Gateway : Type 0 where
  pub enabled : Bool
  pub provider_code : Text

unfoldable pub assert_customer : Actor → Tx (Unit {0})
assert_customer actor =
    throw_if (actor.role != UserRole.customer) (forbidden shipping_fee_payment_customer_required)

unfoldable pub is_due : ShippingFeePayer → ShipmentStatus → Bool
is_due payer shipment_status =
    (payer == ShippingFeePayer.sender && shipment_status == ShipmentStatus.pickup_in_progress)
    || (payer == ShippingFeePayer.receiver && shipment_status == ShipmentStatus.out_for_delivery)

-- `availability`: the reason why a payment is not available, or none where it is.
unfoldable pub pending_unavailable : Bool → Option Code
pending_unavailable true = none
pending_unavailable false = some shipping_fee_payment_not_due

unfoldable pub fee_unavailable : FeeStatus → Bool → Option Code
unfolding pending_unavailable
fee_unavailable FeeStatus.paid due = some shipping_fee_already_paid
fee_unavailable FeeStatus.payment_pending due = some shipping_fee_payment_already_pending
fee_unavailable FeeStatus.pending due = pending_unavailable due
fee_unavailable _ due = some shipping_fee_payment_not_available

unfoldable pub unavailable_reason :
    Gateway → ShipmentStatus → FeeStatus → ShippingFeePayer → Option Code
unfolding fee_unavailable is_due
unavailable_reason gateway shipment_status fee_status payer = elim gateway.enabled [
  | false ↦ some payment_provider_disabled
  | true ↦ fee_unavailable fee_status (is_due payer shipment_status)
]

unfoldable pub assert_fee_snapshot : ShippingFeeTransaction → Shipment → Tx (Unit {0})
assert_fee_snapshot fee shipment =
    throw_if
      (fee.shipment_id != shipment.id
        || fee.payer != shipment.shipping_fee_payer
        || fee.expected_amount != shipment.total_fee
        || not (is_positive_integer fee.expected_amount))
      (conflict shipping_fee_snapshot_invalid)

unfoldable pub assert_payment_ownership : Gateway → PaymentEntity → Tx (Unit {0})
unfolding assert_fee_snapshot
assert_payment_ownership gateway p = do
  assert_fee_snapshot p.fee p.shipment
  throw_if
      (p.payment.shipping_fee_transaction_id != p.fee.id
        || p.payment.initiated_by_id != p.shipment.customer_id
        || p.payment.payer != p.fee.payer
        || p.payment.amount != p.fee.expected_amount
        || p.payment.provider != gateway.provider_code)
      (conflict shipping_fee_payment_ownership_invalid)

unfoldable pub assert_paid_fee : ShippingFeeTransaction → Tx (Unit {0})
assert_paid_fee fee =
    throw_if
      (fee.status != FeeStatus.paid
        || fee.paid_amount != some fee.expected_amount
        || is_none fee.paid_at
        || is_some fee.collected_amount
        || is_some fee.remitted_amount)
      (conflict shipping_fee_payment_state_conflict)

abbrev pub payment_by_id : ℕ → Store → Option ShippingFeePayment
payment_by_id id s = find_first (λ row. row.id == id) s.payments

-- The payment with its joins: a foreign key always leads to a row.
unfoldable pub join_payment : ShippingFeePayment → Tx PaymentEntity
join_payment payment = do
  fees ← gets (fee_by_id payment.shipping_fee_transaction_id)
  fee ← or_throw fees record_not_found
  shipments ← gets (λ s. find_first (λ row. row.id == fee.shipment_id) s.shipments)
  shipment ← or_throw shipments record_not_found
  pure record { payment = payment; fee = fee; shipment = shipment }

unfoldable pub is_active : PaymentStatus → Bool
is_active PaymentStatus.creating = true
is_active PaymentStatus.pending = true
is_active _ = false

unfoldable pub update_payments :
    (ShippingFeePayment → Bool) → (ShippingFeePayment → ShippingFeePayment) → Tx ℕ
update_payments test change = do
  count ← gets (λ s. count_where test s.payments)
  modify (λ s. record s { payments = update_many test change s.payments })
  pure count
