-- ===== src/Fees/Collect.antt =====
-- `collectAt` of ShippingFeesService (backend/src/modules/shipping-fees/shipping-fees.service.ts).
-- The argument `others` is what other transactions commit between the reads of a call and its
-- guarded `updateMany`.
use project_logictic.Prelude.{
  ℕ, ◌&&◌, Bool, true, false, not, Option, some, [], ◌∷◌, String, is_none, is_some,
}
use project_logictic.Prelude.Eq.{◌==◌, ◌!=◌, nat_eq, int_eq}
use project_logictic.Schema.{
  ShippingFeePayer, shipping_fee_payer_eq, shipping_fee_payer_name,
  ShippingFeeTransactionStatus as FeeStatus, shipping_fee_transaction_status_eq,
  shipping_fee_transaction_status_name,
}
use project_logictic.Store.{
  Store, ShippingFeeTransaction, AuditLog, word, identifier, date, number, Actor, ClientContext,
  Number, Tx, pure, throw, throw_if, branch, gets, modify, or_throw, audit, ◌>>=◌, ◌>>◌,
  bad_request, conflict, shipping_fee_not_due, shipping_fee_payment_pending,
  shipping_fee_already_paid, shipping_fee_state_invalid, shipping_fee_collection_conflict,
}
use project_logictic.Fees.Checks.{
  ShipmentSnapshot, DriverSnapshot, assert_exact_amount, assert_snapshot, assert_actor,
  assert_obligation_satisfied, assert_idempotent_collection,
}
use project_logictic.Fees.Table.{or_null, amount_value, update_fees, fee_by_id}

pub data CollectionPoint : Type 0 where
  pickup delivery : CollectionPoint

abbrev pub collection_point_name : CollectionPoint → String
collection_point_name CollectionPoint.pickup = "PICKUP"
collection_point_name CollectionPoint.delivery = "DELIVERY"

-- Where the payer's fee is due.
unfoldable pub due_point : ShippingFeePayer → CollectionPoint
due_point ShippingFeePayer.sender = CollectionPoint.pickup
due_point ShippingFeePayer.receiver = CollectionPoint.delivery

unfoldable pub is_point : CollectionPoint → CollectionPoint → Bool
is_point CollectionPoint.pickup CollectionPoint.pickup = true
is_point CollectionPoint.delivery CollectionPoint.delivery = true
is_point _ _ = false

-- The `where` and the `data` of the update in `collectAt`.
unfoldable pub collect_where :
    ShipmentSnapshot → ShippingFeeTransaction → ShippingFeeTransaction → Bool
collect_where shipment fee row =
    row.id == fee.id
    && row.shipment_id == shipment.id
    && row.payer == fee.payer
    && row.expected_amount == fee.expected_amount
    && row.status == FeeStatus.pending
    && is_none row.collected_amount
    && is_none row.collected_by_driver_id

unfoldable pub collect_data :
    ℕ → Option Number → ℕ → ShippingFeeTransaction → ShippingFeeTransaction
collect_data driver_id amount at row = record row {
  collected_amount = amount_value amount;
  collected_by_driver_id = some driver_id;
  collected_at = some at;
  status = FeeStatus.collected;
}

collected_audit :
    ShipmentSnapshot
    → ShippingFeeTransaction
    → ShippingFeeTransaction
    → Actor
    → CollectionPoint
    → ClientContext
    → AuditLog
collected_audit shipment fee collected actor point context = record {
  actor_id = actor.id;
  actor_role = actor.role;
  action = "SHIPPING_FEE_COLLECTED";
  entity_type = "ShippingFeeTransaction";
  entity_id = fee.id;
  before = some (
      ("status", word (shipping_fee_transaction_status_name fee.status))
      ∷ ("collectedAmount", or_null number fee.collected_amount)
      ∷ ("collectedByDriverId", or_null identifier fee.collected_by_driver_id)
      ∷ []);
  after = some (
      ("status", word (shipping_fee_transaction_status_name collected.status))
      ∷ ("collectedAmount", or_null number collected.collected_amount)
      ∷ ("collectedByDriverId", or_null identifier collected.collected_by_driver_id)
      ∷ ("collectedAt", or_null date collected.collected_at)
      ∷ []);
  metadata = some (
      ("shipmentId", identifier shipment.id)
      ∷ ("payer", word (shipping_fee_payer_name fee.payer))
      ∷ ("collectionPoint", word (collection_point_name point))
      ∷ []);
  ip_address = context.ip_address;
  user_agent = context.user_agent;
}

abbrev pub is_collected_status : FeeStatus → Bool
is_collected_status FeeStatus.collected = true
is_collected_status FeeStatus.remitted = true
is_collected_status FeeStatus.settled = true
is_collected_status _ = false

-- After an update that met no row: a retry that has collected already, or a conflict.
unfoldable pub collect_conflict :
    ShippingFeeTransaction → ℕ → Option Number → Tx ShippingFeeTransaction
unfolding assert_obligation_satisfied assert_idempotent_collection
collect_conflict fee driver_id amount = do
  latest ← or_throw (← gets (fee_by_id fee.id)) (conflict shipping_fee_collection_conflict)
  throw_if (not (is_collected_status latest.status)) (conflict shipping_fee_collection_conflict)
  assert_obligation_satisfied latest
  assert_idempotent_collection latest driver_id amount
  pure latest

pub record CollectInput : Type 0 where
  pub shipment : ShipmentSnapshot
  pub driver : DriverSnapshot
  pub actor : Actor
  pub amount : Option Number
  pub point : CollectionPoint
  pub collected_at : ℕ
  pub context : ClientContext

-- The branch of a fee that is not due at this point.
unfoldable pub collect_not_due : CollectInput → ShippingFeeTransaction → Tx ShippingFeeTransaction
unfolding assert_obligation_satisfied is_point
collect_not_due input fee = do
  throw_if (is_some input.amount) (bad_request shipping_fee_not_due)
  branch (is_point input.point CollectionPoint.delivery && fee.payer == ShippingFeePayer.sender)
      (assert_obligation_satisfied fee) (pure tt)
  pure fee

-- The branch of a fee that is paid online.
unfoldable pub collect_paid : CollectInput → ShippingFeeTransaction → Tx ShippingFeeTransaction
unfolding assert_obligation_satisfied
collect_paid input fee = do
  throw_if (is_some input.amount) (conflict shipping_fee_already_paid)
  assert_obligation_satisfied fee
  pure fee

-- The branch of a fee that is collected already.
unfoldable pub collect_again : CollectInput → ShippingFeeTransaction → Tx ShippingFeeTransaction
unfolding assert_obligation_satisfied assert_idempotent_collection
collect_again input fee = do
  assert_obligation_satisfied fee
  assert_idempotent_collection fee input.driver.id input.amount
  pure fee

-- The guarded update, and what follows it.
unfoldable pub collect_now :
    (Store → Store) → CollectInput → ShippingFeeTransaction → Tx ShippingFeeTransaction
unfolding collect_where collect_data collect_conflict collected_audit
collect_now others input fee = do
  modify others
  count ←
      update_fees (collect_where input.shipment fee)
        (collect_data input.driver.id input.amount input.collected_at)
  let collected = collect_data input.driver.id input.amount input.collected_at fee
  branch (count != 1) (collect_conflict fee input.driver.id input.amount) do
    audit (collected_audit input.shipment fee collected input.actor input.point input.context)
    pure collected

-- `collectAt` at the point where the fee is due, by its status.
unfoldable pub collect_due :
    (Store → Store) → CollectInput → FeeStatus → ShippingFeeTransaction → Tx ShippingFeeTransaction
unfolding collect_paid collect_again assert_exact_amount
collect_due others input FeeStatus.payment_pending fee =
    throw (conflict shipping_fee_payment_pending)
collect_due others input FeeStatus.paid fee = collect_paid input fee
collect_due others input FeeStatus.pending fee = do
  assert_exact_amount input.amount fee.expected_amount
  collect_now others input fee
collect_due others input FeeStatus.collected fee = do
  assert_exact_amount input.amount fee.expected_amount
  collect_again input fee
collect_due others input FeeStatus.remitted fee = do
  assert_exact_amount input.amount fee.expected_amount
  collect_again input fee
collect_due others input FeeStatus.settled fee = do
  assert_exact_amount input.amount fee.expected_amount
  collect_again input fee
collect_due others input _ fee = do
  assert_exact_amount input.amount fee.expected_amount
  throw (conflict shipping_fee_state_invalid)

unfoldable pub collect_at : (Store → Store) → CollectInput → Tx ShippingFeeTransaction
unfolding assert_snapshot assert_actor due_point is_point collect_not_due
collect_at others input = do
  fee ← assert_snapshot input.shipment
  assert_actor input.actor input.driver
  branch (is_point input.point (due_point fee.payer)) (collect_due others input fee.status fee)
      (collect_not_due input fee)
