-- ===== src/Store/Payments.antt =====
-- The tables of online payments (backend/prisma/schema.prisma). A reference is the prefix `SFP-` and
-- the payment's id, so it is the id here.
use project_logictic.Prelude.{ℕ, Option}
use project_logictic.Prelude.Int.{ℤ}
use project_logictic.Text.{Text}
use project_logictic.Schema.{
  ShippingFeePayer, ShippingFeePaymentStatus, ShippingFeePaymentEventType,
}

pub record ShippingFeePayment : Type 0 where
  pub id : ℕ
  pub shipping_fee_transaction_id : ℕ
  pub client_request_id : ℕ
  pub reference : ℕ
  pub provider : Text
  pub provider_reference : Option Text
  pub payer : ShippingFeePayer
  pub amount : ℤ
  pub status : ShippingFeePaymentStatus
  pub initiated_by_id : ℕ
  pub provider_accepted_at : Option ℕ
  pub succeeded_at : Option ℕ
  pub failed_at : Option ℕ
  pub failure_code : Option Text

pub record ShippingFeePaymentEvent : Type 0 where
  pub payment_id : ℕ
  pub provider : Text
  pub provider_event_id : Text
  pub payload_digest : Text
  pub event_type : ShippingFeePaymentEventType
  pub amount : ℤ
  pub occurred_at : ℕ
  pub processed_at : ℕ
