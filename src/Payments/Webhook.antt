-- ===== src/Payments/Webhook.antt =====
-- `handleWebhook` of ShippingFeePaymentsService
-- (backend/src/modules/shipping-fees/payments/shipping-fee-payments.service.ts). The verification of
-- the signature and the digest of the body are done outside: a webhook comes verified or not, and
-- with its digest. The row of the payment is locked, so its webhooks run one after another.
use project_logictic.Prelude.{
  ℕ, ◌&&◌, ◌||◌, Bool, true, false, Option, none, some, is_none, List, [], ◌∷◌, ◌++◌, String,
  find_first,
}
use project_logictic.Prelude.Int.{ℤ}
use project_logictic.Prelude.Eq.{◌==◌, ◌!=◌, nat_eq, int_eq, option_eq, list_eq}
use project_logictic.Text.{Text}
use project_logictic.Schema.{
  UserRole, shipping_fee_payer_eq, shipping_fee_payer_name,
  ShippingFeeTransactionStatus as FeeStatus, shipping_fee_transaction_status_eq,
  shipping_fee_transaction_status_name, ShippingFeePaymentStatus as PaymentStatus,
  shipping_fee_payment_status_name, ShippingFeePaymentEventType as EventType,
}
use project_logictic.Store.{
  Store, ShippingFeeTransaction, ShippingFeePayment, ShippingFeePaymentEvent, AuditLog, Json, word,
  number, identifier, date, text, ClientContext, Tx, pure, throw, throw_if, or_throw, branch, gets,
  modify, audit, ◌>>=◌, ◌>>◌, bad_request, conflict, record_not_found,
  shipping_fee_payment_webhook_invalid, shipping_fee_payment_webhook_replay_conflict,
  shipping_fee_payment_reference_mismatch, shipping_fee_payment_amount_mismatch,
  shipping_fee_payment_terminal_conflict, shipping_fee_payment_state_conflict,
}
use project_logictic.Fees.Table.{update_fees}
use project_logictic.Payments.Checks.{
  payment_not_found, concurrent_modification, PaymentEntity, Gateway, assert_payment_ownership,
  assert_paid_fee, payment_by_id, join_payment, is_active, update_payments,
}
use project_logictic.Payments.Create.{is_other_reference}

pub record VerifiedPaymentWebhook : Type 0 where
  pub event_id : Text
  pub reference : ℕ
  pub provider_reference : Text
  pub amount : ℤ
  pub succeeded : Bool
  pub occurred_at : ℕ
  pub failure_code : Option Text

pub record WebhookResult : Type 0 where
  pub duplicate : Bool
  pub payment_status : PaymentStatus

abbrev pub or_default : {A : Type 0} → Option A → A → A
or_default none a = a
or_default (some b) a = b

-- The `where` of the payment's update, and the two changes that it can make.
unfoldable pub finish_where : ℕ → ShippingFeePayment → Bool
unfolding is_active
finish_where id row = row.id == id && is_active row.status

unfoldable pub succeeded_data :
    ShippingFeePayment → VerifiedPaymentWebhook → ShippingFeePayment → ShippingFeePayment
succeeded_data payment webhook row = record row {
  status = PaymentStatus.succeeded;
  provider_reference = some webhook.provider_reference;
  provider_accepted_at = some (or_default payment.provider_accepted_at webhook.occurred_at);
  succeeded_at = some webhook.occurred_at;
}

-- The code of a failure that names none.
abbrev pub payment_failed : Text
payment_failed = 80 ∷ 65 ∷ 89 ∷ 77 ∷ 69 ∷ 78 ∷ 84 ∷ 95 ∷ 70 ∷ 65 ∷ 73 ∷ 76 ∷ 69 ∷ 68 ∷ []

unfoldable pub failed_data :
    ShippingFeePayment → VerifiedPaymentWebhook → ShippingFeePayment → ShippingFeePayment
failed_data payment webhook row = record row {
  status = PaymentStatus.failed;
  provider_reference = some webhook.provider_reference;
  provider_accepted_at = some (or_default payment.provider_accepted_at webhook.occurred_at);
  failed_at = some webhook.occurred_at;
  failure_code = some (or_default webhook.failure_code payment_failed);
}

-- The `where` and the `data` of the fee's update.
unfoldable pub paid_where :
    ShippingFeeTransaction → ShippingFeePayment → ShippingFeeTransaction → Bool
paid_where fee payment row =
    row.id == fee.id
    && row.shipment_id == fee.shipment_id
    && row.payer == payment.payer
    && row.expected_amount == payment.amount
    && row.status == FeeStatus.payment_pending
    && is_none row.paid_amount
    && is_none row.paid_at

unfoldable pub paid_data :
    ShippingFeePayment → VerifiedPaymentWebhook → ShippingFeeTransaction → ShippingFeeTransaction
paid_data payment webhook row = record row {
  status = FeeStatus.paid;
  paid_amount = some payment.amount;
  paid_at = some webhook.occurred_at;
}

unfoldable pub reopen_where :
    ShippingFeeTransaction → ShippingFeePayment → ShippingFeeTransaction → Bool
reopen_where fee payment row =
    row.id == fee.id
    && row.payer == payment.payer
    && row.expected_amount == payment.amount
    && row.status == FeeStatus.payment_pending

unfoldable pub reopen_data : ShippingFeeTransaction → ShippingFeeTransaction
reopen_data row = record row { status = FeeStatus.pending }

webhook_audit :
    PaymentEntity → ClientContext → String → List (String × Json) → List (String × Json) → AuditLog
webhook_audit p context action before after = record {
  actor_id = p.payment.initiated_by_id;
  actor_role = UserRole.customer;
  action = action;
  entity_type = "ShippingFeePayment";
  entity_id = p.payment.id;
  before = some before;
  after = some after;
  metadata = some (
      ("source", word "PROVIDER_WEBHOOK")
      ∷ ("shipmentId", identifier p.fee.shipment_id)
      ∷ ("shippingFeeTransactionId", identifier p.payment.shipping_fee_transaction_id)
      ∷ ("reference", identifier p.payment.reference)
      ∷ ("payer", word (shipping_fee_payer_name p.payment.payer))
      ∷ ("amount", number p.payment.amount)
      ∷ []);
  ip_address = context.ip_address;
  user_agent = context.user_agent;
}

before_webhook : PaymentEntity → List (String × Json)
before_webhook p =
    ("feeStatus", word (shipping_fee_transaction_status_name p.fee.status))
    ∷ ("paymentStatus", word (shipping_fee_payment_status_name p.payment.status))
    ∷ []

unfoldable pub succeed_now : PaymentEntity → VerifiedPaymentWebhook → ClientContext → Tx (Unit {0})
unfolding update_payments finish_where succeeded_data paid_where paid_data webhook_audit
    before_webhook
succeed_now p webhook context = do
  throw_if (p.fee.status != FeeStatus.payment_pending)
      (conflict shipping_fee_payment_state_conflict)
  payment_count ← update_payments (finish_where p.payment.id) (succeeded_data p.payment webhook)
  fee_count ← update_fees (paid_where p.fee p.payment) (paid_data p.payment webhook)
  throw_if (payment_count != 1 || fee_count != 1) concurrent_modification
  audit (
      webhook_audit p context "SHIPPING_FEE_ONLINE_PAID" (before_webhook p) (
        ("feeStatus", word "PAID")
        ∷ ("paymentStatus", word "SUCCEEDED")
        ∷ ("paidAmount", number p.payment.amount)
        ∷ ("paidAt", date webhook.occurred_at)
        ∷ []))

unfoldable pub apply_succeeded_webhook :
    PaymentStatus → PaymentEntity → VerifiedPaymentWebhook → ClientContext → Tx (Unit {0})
unfolding assert_paid_fee
apply_succeeded_webhook PaymentStatus.failed p webhook context =
    throw (conflict shipping_fee_payment_terminal_conflict)
apply_succeeded_webhook PaymentStatus.succeeded p webhook context = assert_paid_fee p.fee
apply_succeeded_webhook _ p webhook context = succeed_now p webhook context

unfoldable pub fail_now : PaymentEntity → VerifiedPaymentWebhook → ClientContext → Tx (Unit {0})
unfolding update_payments finish_where failed_data reopen_where reopen_data webhook_audit
    before_webhook
fail_now p webhook context = do
  throw_if (p.fee.status != FeeStatus.payment_pending)
      (conflict shipping_fee_payment_state_conflict)
  payment_count ← update_payments (finish_where p.payment.id) (failed_data p.payment webhook)
  fee_count ← update_fees (reopen_where p.fee p.payment) reopen_data
  throw_if (payment_count != 1 || fee_count != 1) concurrent_modification
  audit (
      webhook_audit p context "SHIPPING_FEE_ONLINE_PAYMENT_FAILED" (before_webhook p) (
        ("feeStatus", word "PENDING")
        ∷ ("paymentStatus", word "FAILED")
        ∷ ("failureCode", text (or_default webhook.failure_code payment_failed))
        ∷ ("failedAt", date webhook.occurred_at)
        ∷ []))

unfoldable pub apply_failed_webhook :
    PaymentStatus → PaymentEntity → VerifiedPaymentWebhook → ClientContext → Tx (Unit {0})
apply_failed_webhook PaymentStatus.succeeded p webhook context =
    throw (conflict shipping_fee_payment_terminal_conflict)
apply_failed_webhook PaymentStatus.failed p webhook context = pure tt
apply_failed_webhook _ p webhook context = fail_now p webhook context

abbrev pub event_type_of : Bool → EventType
event_type_of true = EventType.succeeded
event_type_of false = EventType.failed

unfoldable pub webhook_event :
    Gateway → ShippingFeePayment → VerifiedPaymentWebhook → Text → ℕ → ShippingFeePaymentEvent
webhook_event gateway payment webhook digest now = record {
  payment_id = payment.id;
  provider = gateway.provider_code;
  provider_event_id = webhook.event_id;
  payload_digest = digest;
  event_type = event_type_of webhook.succeeded;
  amount = webhook.amount;
  occurred_at = webhook.occurred_at;
  processed_at = now;
}

unfoldable pub apply_webhook :
    PaymentEntity → VerifiedPaymentWebhook → ClientContext → Tx (Unit {0})
apply_webhook p webhook context =
    branch webhook.succeeded (apply_succeeded_webhook p.payment.status p webhook context)
      (apply_failed_webhook p.payment.status p webhook context)

-- A webhook whose event is not known yet.
unfoldable pub process_event :
    Gateway → PaymentEntity → VerifiedPaymentWebhook → Text → ClientContext → ℕ → Tx WebhookResult
unfolding assert_payment_ownership webhook_event
process_event gateway p webhook digest context now = do
  assert_payment_ownership gateway p
  throw_if (is_other_reference p.payment.provider_reference webhook.provider_reference)
      (bad_request shipping_fee_payment_reference_mismatch)
  throw_if (webhook.amount != p.payment.amount) (bad_request shipping_fee_payment_amount_mismatch)
  apply_webhook p webhook context
  modify (λ s. record s {
    payment_events = s.payment_events ++ (webhook_event gateway p.payment webhook digest now ∷ []);
  })
  found ← gets (payment_by_id p.payment.id)
  updated ← or_throw found record_not_found
  pure record { duplicate = false; payment_status = updated.status }

-- An event that is known is taken again only with the same data.
unfoldable pub replay_event : ShippingFeePaymentEvent → ShippingFeePayment → Text → Tx WebhookResult
replay_event known payment digest = do
  throw_if (known.payment_id != payment.id || known.payload_digest != digest)
      (conflict shipping_fee_payment_webhook_replay_conflict)
  pure record { duplicate = true; payment_status = payment.status }

unfoldable pub known_or_new :
    Gateway
    → PaymentEntity
    → VerifiedPaymentWebhook
    → Text
    → ClientContext
    → ℕ
    → Option ShippingFeePaymentEvent
    → Tx WebhookResult
unfolding replay_event
known_or_new gateway p webhook digest context now (some known) = replay_event known p.payment digest
known_or_new gateway p webhook digest context now none =
    process_event gateway p webhook digest context now

abbrev pub known_event : Text → Text → Store → Option ShippingFeePaymentEvent
known_event provider event_id s =
    find_first (λ row. row.provider == provider && row.provider_event_id == event_id)
      s.payment_events

abbrev pub payment_by_reference : ℕ → Store → Option ShippingFeePayment
payment_by_reference reference s = find_first (λ row. row.reference == reference) s.payments

unfoldable pub handle_verified :
    Gateway → VerifiedPaymentWebhook → Text → ClientContext → ℕ → Tx WebhookResult
unfolding join_payment
handle_verified gateway webhook digest context now = do
  found ← gets (payment_by_reference webhook.reference)
  initial ← or_throw found payment_not_found
  throw_if (initial.provider != gateway.provider_code) payment_not_found
  locked ← gets (payment_by_id initial.id)
  payment ← or_throw locked record_not_found
  p ← join_payment payment
  known ← gets (known_event gateway.provider_code webhook.event_id)
  known_or_new gateway p webhook digest context now known

unfoldable pub handle_webhook :
    Gateway → Option VerifiedPaymentWebhook → Text → ClientContext → ℕ → Tx WebhookResult
unfolding handle_verified
handle_webhook gateway none digest context now =
    throw (bad_request shipping_fee_payment_webhook_invalid)
handle_webhook gateway (some webhook) digest context now =
    handle_verified gateway webhook digest context now
