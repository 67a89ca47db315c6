-- ===== src/Fees/Checks.antt =====
-- The assertions of ShippingFeesService (backend/src/modules/shipping-fees/shipping-fees.service.ts).
use project_logictic.Prelude.{
  ℕ, ◌&&◌, ◌||◌, Bool, false, not, Option, none, some, ltb, leb, is_none, is_some, length,
}
use project_logictic.Prelude.Int.{ℤ, pos, negsuc}
use project_logictic.Prelude.Eq.{◌==◌, ◌!=◌, nat_eq, int_eq, option_eq}
use project_logictic.Text.{Text, trim}
use project_logictic.Schema.{
  UserRole, user_role_eq, ShippingFeePayer, shipping_fee_payer_eq,
  ShippingFeeTransactionStatus as FeeStatus, shipping_fee_transaction_status_eq,
}
use project_logictic.Store.{
  ShippingFeeTransaction, Actor, Number, int, Tx, pure, throw, throw_if, ◌>>◌, Code, bad_request,
  forbidden, conflict, shipping_fee_amount_invalid, shipping_fee_amount_mismatch,
  shipping_fee_snapshot_invalid, shipping_fee_actor_forbidden, shipping_fee_admin_required,
  shipping_fee_state_invalid, shipping_fee_collection_conflict, shipping_fee_not_collected,
}

abbrev pub max_safe_integer : ℕ
max_safe_integer = 9007199254740991

-- `Number.isSafeInteger(n)`
abbrev pub is_safe_integer : ℤ → Bool
is_safe_integer (pos n) = leb n max_safe_integer
is_safe_integer (negsuc n) = ltb n max_safe_integer

-- `Number.isSafeInteger(n) && n > 0`
abbrev pub is_positive_integer : ℤ → Bool
is_positive_integer (pos n) = ltb 0 n && leb n max_safe_integer
is_positive_integer (negsuc n) = false

-- `Number.isSafeInteger(amount) && amount === expected`, where `amount` may be missing.
abbrev pub is_exact_amount : Option Number → ℤ → Bool
is_exact_amount (some (int amount)) expected = is_safe_integer amount && amount == expected
is_exact_amount _ expected = false

-- `collectedAmount === amount`
abbrev pub is_amount : Option ℤ → Option Number → Bool
is_amount (some collected) (some (int amount)) = collected == amount
is_amount _ _ = false

-- The fields of a shipment with its fee that the service is handed, and those of a driver.
pub record ShipmentSnapshot : Type 0 where
  pub id : ℕ
  pub shipping_fee_payer : ShippingFeePayer
  pub total_fee : ℤ
  pub shipping_fee_transaction : Option ShippingFeeTransaction

pub record DriverSnapshot : Type 0 where
  pub id : ℕ
  pub user_id : ℕ

unfoldable pub assert_positive_integer : ℤ → Tx (Unit {0})
assert_positive_integer amount =
    throw_if (not (is_positive_integer amount)) (conflict shipping_fee_amount_invalid)

unfoldable pub assert_exact_amount : Option Number → ℤ → Tx (Unit {0})
assert_exact_amount amount expected =
    throw_if (not (is_exact_amount amount expected)) (bad_request shipping_fee_amount_mismatch)

-- `assertSnapshot`, which also hands on the fee that it has found.
unfoldable pub assert_snapshot : ShipmentSnapshot → Tx ShippingFeeTransaction
unfolding assert_positive_integer
assert_snapshot shipment = elim shipment.shipping_fee_transaction [
  | none ↦ throw (conflict shipping_fee_snapshot_invalid)
  | some fee ↦ do
    throw_if
        (fee.shipment_id != shipment.id
          || fee.payer != shipment.shipping_fee_payer
          || fee.expected_amount != shipment.total_fee)
        (conflict shipping_fee_snapshot_invalid)
    assert_positive_integer fee.expected_amount
    pure fee
]

unfoldable pub assert_actor : Actor → DriverSnapshot → Tx (Unit {0})
assert_actor actor driver =
    throw_if (actor.role != UserRole.driver || actor.id != driver.user_id)
      (forbidden shipping_fee_actor_forbidden)

unfoldable pub assert_driver_role : Actor → Tx (Unit {0})
assert_driver_role actor =
    throw_if (actor.role != UserRole.driver) (forbidden shipping_fee_actor_forbidden)

unfoldable pub assert_admin : Actor → Tx (Unit {0})
assert_admin actor = throw_if (actor.role != UserRole.admin) (forbidden shipping_fee_admin_required)

unfoldable pub assert_collected_integrity : ShippingFeeTransaction → Tx (Unit {0})
unfolding assert_positive_integer
assert_collected_integrity fee = do
  assert_positive_integer fee.expected_amount
  throw_if
      (fee.collected_amount != some fee.expected_amount
        || is_none fee.collected_by_driver_id
        || is_none fee.collected_at)
      (conflict shipping_fee_amount_mismatch)

unfoldable pub assert_remitted_integrity : ShippingFeeTransaction → Tx (Unit {0})
unfolding assert_collected_integrity
assert_remitted_integrity fee = do
  assert_collected_integrity fee
  throw_if
      (fee.remitted_amount != some fee.expected_amount
        || is_none fee.remitted_by_driver_id
        || is_none fee.remitted_at)
      (conflict shipping_fee_amount_mismatch)

unfoldable pub assert_paid_integrity : ShippingFeeTransaction → Tx (Unit {0})
unfolding assert_positive_integer
assert_paid_integrity fee = do
  assert_positive_integer fee.expected_amount
  throw_if
      (fee.paid_amount != some fee.expected_amount
        || is_none fee.paid_at
        || is_some fee.collected_amount
        || is_some fee.collected_by_driver_id
        || is_some fee.collected_at
        || is_some fee.remitted_amount
        || is_some fee.remitted_by_driver_id
        || is_some fee.remitted_at
        || is_some fee.settled_by_id
        || is_some fee.settled_at)
      (conflict shipping_fee_amount_mismatch)

-- The `switch` of `assertObligationSatisfied`.
unfoldable pub assert_obligation : FeeStatus → ShippingFeeTransaction → Tx (Unit {0})
unfolding assert_collected_integrity assert_remitted_integrity assert_paid_integrity
assert_obligation FeeStatus.paid fee = assert_paid_integrity fee
assert_obligation FeeStatus.collected fee = assert_collected_integrity fee
assert_obligation FeeStatus.remitted fee = do
  assert_remitted_integrity fee
  throw_if (fee.remitted_by_driver_id != fee.collected_by_driver_id)
      (conflict shipping_fee_state_invalid)
assert_obligation FeeStatus.settled fee = do
  assert_remitted_integrity fee
  throw_if
      (fee.remitted_by_driver_id != fee.collected_by_driver_id
        || is_none fee.settled_at
        || is_none fee.settled_by_id)
      (conflict shipping_fee_state_invalid)
assert_obligation _ fee = throw (conflict shipping_fee_not_collected)

unfoldable pub assert_obligation_satisfied : ShippingFeeTransaction → Tx (Unit {0})
unfolding assert_obligation
assert_obligation_satisfied fee = assert_obligation fee.status fee

unfoldable pub assert_idempotent_collection :
    ShippingFeeTransaction → ℕ → Option Number → Tx (Unit {0})
assert_idempotent_collection fee driver_id amount =
    throw_if
      (not (is_amount fee.collected_amount amount)
        || fee.collected_amount != some fee.expected_amount
        || fee.collected_by_driver_id != some driver_id
        || is_none fee.collected_at)
      (conflict shipping_fee_collection_conflict)

-- The trimmed text, of 3 to 500 characters.
unfoldable pub required_text : Text → Code → Tx Text
required_text value code = do
  let normalized = trim value
  throw_if (ltb (length normalized) 3 || ltb 500 (length normalized)) (bad_request code)
  pure normalized
