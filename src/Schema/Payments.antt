-- ===== src/Schema/Payments.antt =====
-- The enumerations of online payments (backend/prisma/schema.prisma), with their equality tests.
use project_logictic.Prelude.{ℕ, ◌≡◌, refl, [], ◌∷◌, String}
use project_logictic.Prelude.Eq.{Eq, enum_eq}
use project_logictic.Schema.Code.{nth}

pub data ShippingFeePaymentStatus : Type 0 where
  creating pending succeeded failed : ShippingFeePaymentStatus

abbrev pub shipping_fee_payment_status_code : ShippingFeePaymentStatus → ℕ
shipping_fee_payment_status_code ShippingFeePaymentStatus.creating = 0
shipping_fee_payment_status_code ShippingFeePaymentStatus.pending = 1
shipping_fee_payment_status_code ShippingFeePaymentStatus.succeeded = 2
shipping_fee_payment_status_code ShippingFeePaymentStatus.failed = 3

abbrev pub shipping_fee_payment_status_of_code : ℕ → ShippingFeePaymentStatus
shipping_fee_payment_status_of_code = nth ShippingFeePaymentStatus.creating (
    ShippingFeePaymentStatus.creating ∷ ShippingFeePaymentStatus.pending
    ∷ ShippingFeePaymentStatus.succeeded ∷ ShippingFeePaymentStatus.failed ∷ [])

pub shipping_fee_payment_status_inverse :
    (a : ShippingFeePaymentStatus)
    → shipping_fee_payment_status_of_code (shipping_fee_payment_status_code a) ≡ a
shipping_fee_payment_status_inverse ShippingFeePaymentStatus.creating = refl
shipping_fee_payment_status_inverse ShippingFeePaymentStatus.pending = refl
shipping_fee_payment_status_inverse ShippingFeePaymentStatus.succeeded = refl
shipping_fee_payment_status_inverse ShippingFeePaymentStatus.failed = refl

instance abbrev pub shipping_fee_payment_status_eq : Eq ShippingFeePaymentStatus
shipping_fee_payment_status_eq =
    enum_eq shipping_fee_payment_status_code shipping_fee_payment_status_of_code
      shipping_fee_payment_status_inverse

-- The value's name, as it stands in an audit entry.
unfoldable pub shipping_fee_payment_status_name : ShippingFeePaymentStatus → String
shipping_fee_payment_status_name ShippingFeePaymentStatus.creating = "CREATING"
shipping_fee_payment_status_name ShippingFeePaymentStatus.pending = "PENDING"
shipping_fee_payment_status_name ShippingFeePaymentStatus.succeeded = "SUCCEEDED"
shipping_fee_payment_status_name ShippingFeePaymentStatus.failed = "FAILED"

pub data ShippingFeePaymentEventType : Type 0 where
  succeeded failed : ShippingFeePaymentEventType

abbrev pub shipping_fee_payment_event_type_code : ShippingFeePaymentEventType → ℕ
shipping_fee_payment_event_type_code ShippingFeePaymentEventType.succeeded = 0
shipping_fee_payment_event_type_code ShippingFeePaymentEventType.failed = 1

abbrev pub shipping_fee_payment_event_type_of_code : ℕ → ShippingFeePaymentEventType
shipping_fee_payment_event_type_of_code =
    nth ShippingFeePaymentEventType.succeeded
      (ShippingFeePaymentEventType.succeeded ∷ ShippingFeePaymentEventType.failed ∷ [])

pub shipping_fee_payment_event_type_inverse :
    (a : ShippingFeePaymentEventType)
    → shipping_fee_payment_event_type_of_code (shipping_fee_payment_event_type_code a) ≡ a
shipping_fee_payment_event_type_inverse ShippingFeePaymentEventType.succeeded = refl
shipping_fee_payment_event_type_inverse ShippingFeePaymentEventType.failed = refl

instance abbrev pub shipping_fee_payment_event_type_eq : Eq ShippingFeePaymentEventType
shipping_fee_payment_event_type_eq =
    enum_eq shipping_fee_payment_event_type_code shipping_fee_payment_event_type_of_code
      shipping_fee_payment_event_type_inverse
