-- ===== src/Fees/Custody.antt =====
-- What may happen to one fee: the custody of its money as a state machine, which the service
-- implements, and what every fee that it reaches satisfies.
use project_logictic.Prelude.{ℕ, ◌≡◌, true, Option, none, some, is_some, arith}
use project_logictic.Prelude.Int.{ℤ}
use project_logictic.Schema.{ShippingFeeTransactionStatus as FeeStatus}
use project_logictic.Store.{ShippingFeeTransaction}
use project_logictic.Fees.Checks.{is_positive_integer}
use mathlib.Core.Path.{subst}

-- The two states in which the company's money is with a driver or on its way.
pub data InCustody : FeeStatus → Type 0 where
  with_driver : InCustody FeeStatus.collected
  handed_over : InCustody FeeStatus.remitted

-- One step of a fee. The amount that is collected or remitted is the expected one.
pub data Moves (fee : ShippingFeeTransaction) : ShippingFeeTransaction → Type 0 where
  stay : Moves fee fee
  collect :
      (driver at : ℕ)
      → fee.status ≡ FeeStatus.pending
      → fee.collected_amount ≡ none
      → fee.collected_by_driver_id ≡ none
      → Moves fee (record fee {
        collected_amount = some fee.expected_amount;
        collected_by_driver_id = some driver;
        collected_at = some at;
        status = FeeStatus.collected;
      })
  remit :
      (driver at : ℕ)
      → fee.status ≡ FeeStatus.collected
      → fee.collected_amount ≡ some fee.expected_amount
      → fee.collected_by_driver_id ≡ some driver
      → fee.remitted_amount ≡ none
      → fee.remitted_by_driver_id ≡ none
      → Moves fee (record fee {
        status = FeeStatus.remitted;
        remitted_amount = some fee.expected_amount;
        remitted_by_driver_id = some driver;
        remitted_at = some at;
      })
  settle :
      (admin at : ℕ)
      → fee.status ≡ FeeStatus.remitted
      → fee.collected_amount ≡ some fee.expected_amount
      → fee.remitted_amount ≡ some fee.expected_amount
      → fee.settled_by_id ≡ none
      → Moves fee (record fee {
        status = FeeStatus.settled;
        settled_by_id = some admin;
        settled_at = some at;
      })
  dispute : InCustody fee.status → Moves fee (record fee { status = FeeStatus.disputed })
  resolve :
      (from : FeeStatus)
      → fee.status ≡ FeeStatus.disputed
      → InCustody from
      → Moves fee (record fee { status = from })
  cancel :
      (at : ℕ)
      → fee.status ≡ FeeStatus.pending
      → Moves fee (record fee { status = FeeStatus.cancelled; cancelled_at = some at })

-- What the status says of the collection, and of the settlement.
abbrev pub ByStatus : FeeStatus → ShippingFeeTransaction → Type 0
ByStatus FeeStatus.collected fee =
    (fee.collected_amount ≡ some fee.expected_amount) × (is_some fee.collected_by_driver_id ≡ true)
ByStatus FeeStatus.remitted fee =
    (fee.collected_amount ≡ some fee.expected_amount) × (is_some fee.collected_by_driver_id ≡ true)
ByStatus FeeStatus.disputed fee =
    (fee.collected_amount ≡ some fee.expected_amount) × (is_some fee.collected_by_driver_id ≡ true)
ByStatus FeeStatus.settled fee =
    (fee.collected_amount ≡ some fee.expected_amount)
    × (is_some fee.collected_by_driver_id ≡ true)
    × (fee.remitted_amount ≡ some fee.expected_amount)
    × (is_some fee.settled_by_id ≡ true)
ByStatus _ fee =
    (fee.collected_amount ≡ none)
    × (fee.collected_by_driver_id ≡ none)
    × (fee.remitted_amount ≡ none)
    × (fee.remitted_by_driver_id ≡ none)

-- A remittance is of the whole amount, and by the driver who collected it.
abbrev pub Handed : Option ℤ → ℤ → Option ℕ → Option ℕ → Type 0
Handed none expected remitter collector = remitter ≡ none
Handed (some amount) expected remitter collector = (amount ≡ expected) × (remitter ≡ collector)

pub record Custody (fee : ShippingFeeTransaction) : Type 0 where
  pub payable : is_positive_integer fee.expected_amount ≡ true
  pub by_status : ByStatus fee.status fee
  pub handed :
      Handed fee.remitted_amount fee.expected_amount fee.remitted_by_driver_id
        fee.collected_by_driver_id

in_custody :
    (from : FeeStatus) (fee : ShippingFeeTransaction)
    → InCustody from
    → ByStatus FeeStatus.disputed fee
    → ByStatus from (record fee { status = from })
in_custody from fee with_driver h = h
in_custody from fee handed_over h = h

disputed_from :
    (from : FeeStatus) (fee : ShippingFeeTransaction)
    → InCustody from
    → ByStatus from fee
    → ByStatus FeeStatus.disputed fee
disputed_from from fee with_driver h = h
disputed_from from fee handed_over h = h

-- Every step keeps the custody rules.
pub Moves-Custody :
    (fee after : ShippingFeeTransaction) → Moves fee after → Custody fee → Custody after
Moves-Custody fee after stay c = c
Moves-Custody fee after (collect driver at p q r) c = ground arith
Moves-Custody fee after (remit driver at p q r u v) c = ground arith
Moves-Custody fee after (settle admin at p q r u) c = ground arith
Moves-Custody fee after (dispute h) c = record {
  payable = c.payable;
  by_status = disputed_from fee.status fee h c.by_status;
  handed = c.handed;
}
Moves-Custody fee after (resolve from p h) c = record {
  payable = c.payable;
  by_status = in_custody from fee h (subst (λ t. ByStatus t fee) p c.by_status);
  handed = c.handed;
}
Moves-Custody fee after (cancel at p) c = ground arith
