-- ===== src/Schema/Money.antt =====
-- The enumerations of shipping fees and cash on delivery (backend/prisma/schema.prisma), with their equality tests.
use project_logictic.Prelude.{ℕ, ◌≡◌, refl, [], ◌∷◌, String}
use project_logictic.Prelude.Eq.{Eq, enum_eq}
use project_logictic.Schema.Code.{nth}

pub data ShippingFeePayer : Type 0 where
  sender receiver : ShippingFeePayer

abbrev pub shipping_fee_payer_code : ShippingFeePayer → ℕ
shipping_fee_payer_code ShippingFeePayer.sender = 0
shipping_fee_payer_code ShippingFeePayer.receiver = 1

abbrev pub shipping_fee_payer_of_code : ℕ → ShippingFeePayer
shipping_fee_payer_of_code =
    nth ShippingFeePayer.sender (ShippingFeePayer.sender ∷ ShippingFeePayer.receiver ∷ [])

pub shipping_fee_payer_inverse :
    (a : ShippingFeePayer) → shipping_fee_payer_of_code (shipping_fee_payer_code a) ≡ a
shipping_fee_payer_inverse ShippingFeePayer.sender = refl
shipping_fee_payer_inverse _ = refl

instance abbrev pub shipping_fee_payer_eq : Eq ShippingFeePayer
shipping_fee_payer_eq =
    enum_eq shipping_fee_payer_code shipping_fee_payer_of_code shipping_fee_payer_inverse

-- The value's name, as it stands in an audit entry.
unfoldable pub shipping_fee_payer_name : ShippingFeePayer → String
shipping_fee_payer_name ShippingFeePayer.sender = "SENDER"
shipping_fee_payer_name ShippingFeePayer.receiver = "RECEIVER"

pub data ShippingFeeTransactionStatus : Type 0 where
  pending payment_pending paid collected remitted settled disputed cancelled :
      ShippingFeeTransactionStatus

abbrev pub shipping_fee_transaction_status_code : ShippingFeeTransactionStatus → ℕ
shipping_fee_transaction_status_code ShippingFeeTransactionStatus.pending = 0
shipping_fee_transaction_status_code ShippingFeeTransactionStatus.payment_pending = 1
shipping_fee_transaction_status_code ShippingFeeTransactionStatus.paid = 2
shipping_fee_transaction_status_code ShippingFeeTransactionStatus.collected = 3
shipping_fee_transaction_status_code ShippingFeeTransactionStatus.remitted = 4
shipping_fee_transaction_status_code ShippingFeeTransactionStatus.settled = 5
shipping_fee_transaction_status_code ShippingFeeTransactionStatus.disputed = 6
shipping_fee_transaction_status_code ShippingFeeTransactionStatus.cancelled = 7

abbrev pub shipping_fee_transaction_status_of_code : ℕ → ShippingFeeTransactionStatus
shipping_fee_transaction_status_of_code = nth ShippingFeeTransactionStatus.pending (
    ShippingFeeTransactionStatus.pending ∷ ShippingFeeTransactionStatus.payment_pending
    ∷ ShippingFeeTransactionStatus.paid ∷ ShippingFeeTransactionStatus.collected
    ∷ ShippingFeeTransactionStatus.remitted ∷ ShippingFeeTransactionStatus.settled
    ∷ ShippingFeeTransactionStatus.disputed ∷ ShippingFeeTransactionStatus.cancelled ∷ [])

pub shipping_fee_transaction_status_inverse :
    (a : ShippingFeeTransactionStatus)
    → shipping_fee_transaction_status_of_code (shipping_fee_transaction_status_code a) ≡ a
shipping_fee_transaction_status_inverse ShippingFeeTransactionStatus.pending = refl
shipping_fee_transaction_status_inverse _ = refl

instance abbrev pub shipping_fee_transaction_status_eq : Eq ShippingFeeTransactionStatus
shipping_fee_transaction_status_eq =
    enum_eq shipping_fee_transaction_status_code shipping_fee_transaction_status_of_code
      shipping_fee_transaction_status_inverse

-- The value's name, as it stands in an audit entry.
unfoldable pub shipping_fee_transaction_status_name : ShippingFeeTransactionStatus → String
shipping_fee_transaction_status_name ShippingFeeTransactionStatus.pending = "PENDING"
shipping_fee_transaction_status_name ShippingFeeTransactionStatus.payment_pending =
    "PAYMENT_PENDING"
shipping_fee_transaction_status_name ShippingFeeTransactionStatus.paid = "PAID"
shipping_fee_transaction_status_name ShippingFeeTransactionStatus.collected = "COLLECTED"
shipping_fee_transaction_status_name ShippingFeeTransactionStatus.remitted = "REMITTED"
shipping_fee_transaction_status_name ShippingFeeTransactionStatus.settled = "SETTLED"
shipping_fee_transaction_status_name ShippingFeeTransactionStatus.disputed = "DISPUTED"
shipping_fee_transaction_status_name ShippingFeeTransactionStatus.cancelled = "CANCELLED"

pub data CodTransactionStatus : Type 0 where
  pending collected remitted settled disputed : CodTransactionStatus

abbrev pub cod_transaction_status_code : CodTransactionStatus → ℕ
cod_transaction_status_code CodTransactionStatus.pending = 0
cod_transaction_status_code CodTransactionStatus.collected = 1
cod_transaction_status_code CodTransactionStatus.remitted = 2
cod_transaction_status_code CodTransactionStatus.settled = 3
cod_transaction_status_code CodTransactionStatus.disputed = 4

abbrev pub cod_transaction_status_of_code : ℕ → CodTransactionStatus
cod_transaction_status_of_code = nth CodTransactionStatus.pending (
    CodTransactionStatus.pending ∷ CodTransactionStatus.collected ∷ CodTransactionStatus.remitted
    ∷ CodTransactionStatus.settled ∷ CodTransactionStatus.disputed ∷ [])

pub cod_transaction_status_inverse :
    (a : CodTransactionStatus) → cod_transaction_status_of_code (cod_transaction_status_code a) ≡ a
cod_transaction_status_inverse CodTransactionStatus.pending = refl
cod_transaction_status_inverse _ = refl

instance abbrev pub cod_transaction_status_eq : Eq CodTransactionStatus
cod_transaction_status_eq =
    enum_eq cod_transaction_status_code cod_transaction_status_of_code
      cod_transaction_status_inverse

-- The value's name, as it stands in an audit entry.
unfoldable pub cod_transaction_status_name : CodTransactionStatus → String
cod_transaction_status_name CodTransactionStatus.pending = "PENDING"
cod_transaction_status_name CodTransactionStatus.collected = "COLLECTED"
cod_transaction_status_name CodTransactionStatus.remitted = "REMITTED"
cod_transaction_status_name CodTransactionStatus.settled = "SETTLED"
cod_transaction_status_name CodTransactionStatus.disputed = "DISPUTED"

pub data CodRemittanceStatus : Type 0 where
  pending confirmed rejected : CodRemittanceStatus

abbrev pub cod_remittance_status_code : CodRemittanceStatus → ℕ
cod_remittance_status_code CodRemittanceStatus.pending = 0
cod_remittance_status_code CodRemittanceStatus.confirmed = 1
cod_remittance_status_code CodRemittanceStatus.rejected = 2

abbrev pub cod_remittance_status_of_code : ℕ → CodRemittanceStatus
cod_remittance_status_of_code = nth CodRemittanceStatus.pending (
    CodRemittanceStatus.pending ∷ CodRemittanceStatus.confirmed ∷ CodRemittanceStatus.rejected ∷ [])

pub cod_remittance_status_inverse :
    (a : CodRemittanceStatus) → cod_remittance_status_of_code (cod_remittance_status_code a) ≡ a
cod_remittance_status_inverse CodRemittanceStatus.pending = refl
cod_remittance_status_inverse _ = refl

instance abbrev pub cod_remittance_status_eq : Eq CodRemittanceStatus
cod_remittance_status_eq =
    enum_eq cod_remittance_status_code cod_remittance_status_of_code cod_remittance_status_inverse

-- The value's name, as it stands in an audit entry.
unfoldable pub cod_remittance_status_name : CodRemittanceStatus → String
cod_remittance_status_name CodRemittanceStatus.pending = "PENDING"
cod_remittance_status_name CodRemittanceStatus.confirmed = "CONFIRMED"
cod_remittance_status_name CodRemittanceStatus.rejected = "REJECTED"

pub data CodPayoutStatus : Type 0 where
  pending sent paid_out disputed : CodPayoutStatus

abbrev pub cod_payout_status_code : CodPayoutStatus → ℕ
cod_payout_status_code CodPayoutStatus.pending = 0
cod_payout_status_code CodPayoutStatus.sent = 1
cod_payout_status_code CodPayoutStatus.paid_out = 2
cod_payout_status_code CodPayoutStatus.disputed = 3

abbrev pub cod_payout_status_of_code : ℕ → CodPayoutStatus
cod_payout_status_of_code = nth CodPayoutStatus.pending (
    CodPayoutStatus.pending ∷ CodPayoutStatus.sent ∷ CodPayoutStatus.paid_out
    ∷ CodPayoutStatus.disputed ∷ [])

pub cod_payout_status_inverse :
    (a : CodPayoutStatus) → cod_payout_status_of_code (cod_payout_status_code a) ≡ a
cod_payout_status_inverse CodPayoutStatus.pending = refl
cod_payout_status_inverse _ = refl

instance abbrev pub cod_payout_status_eq : Eq CodPayoutStatus
cod_payout_status_eq =
    enum_eq cod_payout_status_code cod_payout_status_of_code cod_payout_status_inverse

-- The value's name, as it stands in an audit entry.
unfoldable pub cod_payout_status_name : CodPayoutStatus → String
cod_payout_status_name CodPayoutStatus.pending = "PENDING"
cod_payout_status_name CodPayoutStatus.sent = "SENT"
cod_payout_status_name CodPayoutStatus.paid_out = "PAID_OUT"
cod_payout_status_name CodPayoutStatus.disputed = "DISPUTED"

pub data CodPayoutMethod : Type 0 where
  bank_transfer cash : CodPayoutMethod

abbrev pub cod_payout_method_code : CodPayoutMethod → ℕ
cod_payout_method_code CodPayoutMethod.bank_transfer = 0
cod_payout_method_code CodPayoutMethod.cash = 1

abbrev pub cod_payout_method_of_code : ℕ → CodPayoutMethod
cod_payout_method_of_code =
    nth CodPayoutMethod.bank_transfer (CodPayoutMethod.bank_transfer ∷ CodPayoutMethod.cash ∷ [])

pub cod_payout_method_inverse :
    (a : CodPayoutMethod) → cod_payout_method_of_code (cod_payout_method_code a) ≡ a
cod_payout_method_inverse CodPayoutMethod.bank_transfer = refl
cod_payout_method_inverse _ = refl

instance abbrev pub cod_payout_method_eq : Eq CodPayoutMethod
cod_payout_method_eq =
    enum_eq cod_payout_method_code cod_payout_method_of_code cod_payout_method_inverse

-- The value's name, as it stands in an audit entry.
unfoldable pub cod_payout_method_name : CodPayoutMethod → String
cod_payout_method_name CodPayoutMethod.bank_transfer = "BANK_TRANSFER"
cod_payout_method_name CodPayoutMethod.cash = "CASH"
