-- ===== src/Payments/Create.antt =====
-- `create` of ShippingFeePaymentsService
-- (backend/src/modules/shipping-fees/payments/shipping-fee-payments.service.ts): an attempt is written
-- in one transaction, the provider is called, and its answer is written in another one. The row of
-- the fee, and then that of the payment, is locked, so the attempts of a fee run one after another.
use project_logictic.Prelude.{
  ℕ, ◌&&◌, ◌||◌, Bool, false, Option, none, some, [], ◌∷◌, ◌++◌, find_first, any_of,
}
use project_logictic.Prelude.Eq.{◌==◌, ◌!=◌, nat_eq, int_eq, option_eq, list_eq}
use project_logictic.Text.{Text}
use project_logictic.Schema.{
  shipping_fee_payer_eq, shipping_fee_payer_name, ShippingFeeTransactionStatus as FeeStatus,
  shipping_fee_transaction_status_eq, shipping_fee_transaction_status_name,
  ShippingFeePaymentStatus as PaymentStatus, shipping_fee_payment_status_eq,
}
use project_logictic.Store.{
  Store, Shipment, ShippingFeeTransaction, ShippingFeePayment, AuditLog, word, number, identifier,
  Actor, ClientContext, Tx, pure, throw, throw_if, or_throw, branch, gets, modify, audit, ◌>>=◌,
  ◌>>◌, Code, conflict, record_not_found, unique_violation,
  shipping_fee_payment_idempotency_conflict, shipping_fee_payment_already_pending,
  shipping_fee_payment_failed, shipping_fee_payment_provider_reference_conflict,
}
use project_logictic.Fees.Table.{fee_by_id, update_fees}
use project_logictic.Payments.Checks.{
  payment_not_found, provider_unavailable, concurrent_modification, PaymentEntity, Gateway,
  assert_customer, unavailable_reason, assert_fee_snapshot, assert_payment_ownership, payment_by_id,
  join_payment, is_active, update_payments,
}

pub record CreatePayment : Type 0 where
  pub shipment_id : ℕ
  pub client_request_id : ℕ

-- The attempt that the request with this id has made.
abbrev pub requested_payment : ℕ → ℕ → Store → Option ShippingFeePayment
requested_payment fee_id client_request_id s =
    find_first
      (λ row.
        row.shipping_fee_transaction_id == fee_id && row.client_request_id == client_request_id)
      s.payments

-- A retry returns the attempt that it has made.
unfoldable pub create_retry : Gateway → Actor → ShippingFeeTransaction → ShippingFeePayment → Tx ℕ
create_retry gateway actor fee existing = do
  throw_if
      (existing.initiated_by_id != actor.id
        || existing.provider != gateway.provider_code
        || existing.payer != fee.payer
        || existing.amount != fee.expected_amount)
      (conflict shipping_fee_payment_idempotency_conflict)
  pure existing.id

abbrev pub assert_available : Option Code → Tx (Unit {0})
assert_available none = pure tt
assert_available (some reason) = throw (conflict reason)

unfoldable pub is_active_of : ℕ → ShippingFeePayment → Bool
unfolding is_active
is_active_of fee_id row = row.shipping_fee_transaction_id == fee_id && is_active row.status

-- The `where` and the `data` of the fee's update, and the new attempt.
unfoldable pub start_where : ShippingFeeTransaction → ShippingFeeTransaction → Bool
start_where fee row =
    row.id == fee.id
    && row.status == FeeStatus.pending
    && row.payer == fee.payer
    && row.expected_amount == fee.expected_amount

unfoldable pub start_data : ShippingFeeTransaction → ShippingFeeTransaction
start_data row = record row { status = FeeStatus.payment_pending }

unfoldable pub new_payment :
    ℕ → Gateway → Actor → ShippingFeeTransaction → CreatePayment → ShippingFeePayment
new_payment new_id gateway actor fee dto = record {
  id = new_id;
  shipping_fee_transaction_id = fee.id;
  client_request_id = dto.client_request_id;
  reference = new_id;
  provider = gateway.provider_code;
  provider_reference = none;
  payer = fee.payer;
  amount = fee.expected_amount;
  status = PaymentStatus.creating;
  initiated_by_id = actor.id;
  provider_accepted_at = none;
  succeeded_at = none;
  failed_at = none;
  failure_code = none;
}

created_audit : Actor → ClientContext → ShippingFeeTransaction → ShippingFeePayment → AuditLog
created_audit actor context fee payment = record {
  actor_id = actor.id;
  actor_role = actor.role;
  action = "SHIPPING_FEE_PAYMENT_CREATED";
  entity_type = "ShippingFeePayment";
  entity_id = payment.id;
  before = some (("feeStatus", word (shipping_fee_transaction_status_name fee.status)) ∷ []);
  after = some (("feeStatus", word "PAYMENT_PENDING") ∷ ("paymentStatus", word "CREATING") ∷ []);
  metadata = some (
      ("shipmentId", identifier fee.shipment_id)
      ∷ ("shippingFeeTransactionId", identifier fee.id)
      ∷ ("reference", identifier payment.reference)
      ∷ ("payer", word (shipping_fee_payer_name fee.payer))
      ∷ ("amount", number fee.expected_amount)
      ∷ []);
  ip_address = context.ip_address;
  user_agent = context.user_agent;
}

-- The primary key refuses a second row.
unfoldable pub insert_payment : ShippingFeePayment → Tx (Unit {0})
insert_payment payment = do
  known ← gets (λ s. any_of (λ row. row.id == payment.id) s.payments)
  throw_if known unique_violation
  modify (λ s. record s { payments = s.payments ++ (payment ∷ []) })

unfoldable pub create_new :
    ℕ → Gateway → Actor → Shipment → ShippingFeeTransaction → CreatePayment → ClientContext → Tx ℕ
unfolding unavailable_reason is_active_of start_where start_data new_payment created_audit
    insert_payment
create_new new_id gateway actor shipment fee dto context = do
  assert_available (unavailable_reason gateway shipment.status fee.status fee.payer)
  active ← gets (λ s. any_of (is_active_of fee.id) s.payments)
  throw_if active (conflict shipping_fee_payment_already_pending)
  count ← update_fees (start_where fee) start_data
  throw_if (count != 1) concurrent_modification
  insert_payment (new_payment new_id gateway actor fee dto)
  audit (created_audit actor context fee (new_payment new_id gateway actor fee dto))
  pure new_id

unfoldable pub create_or_retry :
    ℕ
    → Gateway
    → Actor
    → Shipment
    → ShippingFeeTransaction
    → CreatePayment
    → ClientContext
    → Option ShippingFeePayment
    → Tx ℕ
unfolding create_retry
create_or_retry new_id gateway actor shipment fee dto context (some existing) =
    create_retry gateway actor fee existing
create_or_retry new_id gateway actor shipment fee dto context none =
    create_new new_id gateway actor shipment fee dto context

-- The shipment of the customer, with its fee.
abbrev pub owned_by : ℕ → ℕ → Store → Option Shipment
owned_by shipment_id customer_id s =
    find_first (λ row. row.id == shipment_id && row.customer_id == customer_id) s.shipments

abbrev pub fee_of_shipment : ℕ → Store → Option ShippingFeeTransaction
fee_of_shipment shipment_id s = find_first (λ row. row.shipment_id == shipment_id) s.fees

-- The first transaction: the attempt's id.
unfoldable pub create_attempt : ℕ → Gateway → Actor → CreatePayment → ClientContext → Tx ℕ
unfolding assert_customer assert_fee_snapshot
create_attempt new_id gateway actor dto context = do
  assert_customer actor
  branch gateway.enabled (pure tt) (throw provider_unavailable)
  shipments ← gets (owned_by dto.shipment_id actor.id)
  shipment ← or_throw shipments payment_not_found
  joined ← gets (fee_of_shipment shipment.id)
  found ← or_throw joined payment_not_found
  locked ← gets (fee_by_id found.id)
  fee ← or_throw locked record_not_found
  assert_fee_snapshot fee shipment
  existing ← gets (requested_payment fee.id dto.client_request_id)
  create_or_retry new_id gateway actor shipment fee dto context existing

unfoldable pub find_owned_payment : Gateway → ℕ → ℕ → Tx PaymentEntity
unfolding join_payment assert_payment_ownership
find_owned_payment gateway payment_id customer_id = do
  found ← gets (payment_by_id payment_id)
  payment ← or_throw found payment_not_found
  p ← join_payment payment
  throw_if (payment.initiated_by_id != customer_id || p.shipment.customer_id != customer_id)
      payment_not_found
  assert_payment_ownership gateway p
  pure p

unfoldable pub accept_where : ℕ → ShippingFeePayment → Bool
accept_where id row = row.id == id && row.status == PaymentStatus.creating

unfoldable pub accept_data : Text → ℕ → ShippingFeePayment → ShippingFeePayment
accept_data provider_reference now row = record row {
  status = PaymentStatus.pending;
  provider_reference = some provider_reference;
  provider_accepted_at = some now;
}

abbrev pub is_other_reference : Option Text → Text → Bool
is_other_reference none reference = false
is_other_reference (some []) reference = false
is_other_reference (some known) reference = known != reference

-- The second transaction: the provider's answer.
unfoldable pub accept_checkout : ℕ → Text → ℕ → Tx (Unit {0})
unfolding update_payments accept_where accept_data
accept_checkout payment_id provider_reference now = do
  found ← gets (payment_by_id payment_id)
  current ← or_throw found record_not_found
  branch (current.status == PaymentStatus.succeeded) (pure tt) (do
    throw_if (current.status == PaymentStatus.failed) (conflict shipping_fee_payment_failed)
    throw_if (is_other_reference current.provider_reference provider_reference)
        (conflict shipping_fee_payment_provider_reference_conflict)
    branch (current.status == PaymentStatus.creating)
        (do
          count ← update_payments (accept_where current.id) (accept_data provider_reference now)
          throw_if (count != 1) concurrent_modification)
        (pure tt))
