-- ===== src/Transfers/Receive.antt =====
-- `receive` of WarehouseTransferLifecycleService
-- (backend/src/modules/warehouses/warehouse-transfer-lifecycle.service.ts), and the one notification that
-- it creates (`createIdempotent`, backend/src/modules/notifications/notifications.service.ts). The flow
-- policy reads the clock at `checked_at`, and the reception is at `now`.
use project_logictic.Prelude.{
  if◌then◌else◌, List, ℕ, ◌+◌, ◌&&◌, ◌||◌, Bool, true, false, Option, none, some, not, List, [],
  ◌∷◌, ◌++◌, String, any_of,
}
use project_logictic.Prelude.Eq.{◌==◌, ◌!=◌, nat_eq, option_eq}
use project_logictic.Text.{Text, trim}
use project_logictic.Schema.{
  NotificationDeliveryChannel, ShipmentStatus, shipment_status_eq, LineHaulTripStatus,
  line_haul_trip_status_eq, WarehouseTransferStatus as TransferStatus, warehouse_transfer_status_eq,
  warehouse_transfer_status_name,
}
use project_logictic.Store.{
  NotificationDelivery, Store, Shipment, WarehouseTransfer, LineHaulTrip, LineHaulTripTransfer,
  TrackingEvent, Notification, EventKey, warehouse_destination, AuditLog, Json, null, number, text,
  word, identifier, date, Tx, pure, throw_if, or_throw, branch, gets, modify, audit, ◌>>=◌, ◌>>◌,
  conflict, forbidden, not_found, record_not_found, line_haul_transfer_route_mismatch,
  transfer_destination_mismatch, warehouse_not_found, invalid_transfer_status,
  line_haul_trip_not_arrived, transfer_concurrent_modification, shipment_concurrent_modification,
}
use project_logictic.Fees.Table.{or_null}
use project_logictic.Shipments.Transition.{assert_transfer_receive}
use project_logictic.Transfers.Flow.{assert_standalone_receive, is_legacy_standalone}
use project_logictic.Transfers.Tables.{
  TransferEntity, TransferTransition, ReceiveTransferInput, transfer_by_id, find_transfer,
  active_assignment, update_transfers, update_shipments, track,
}

abbrev pub same_key : EventKey → EventKey → Bool
same_key (warehouse_destination shipment warehouse) (warehouse_destination shipment' warehouse') =
    shipment == shipment' && warehouse == warehouse'

abbrev pub same_event : Notification → Notification → Bool
same_event n m = n.user_id == m.user_id && same_key n.event_key m.event_key

abbrev pub same_channel : NotificationDeliveryChannel → NotificationDeliveryChannel → Bool
same_channel NotificationDeliveryChannel.realtime NotificationDeliveryChannel.realtime = true
same_channel NotificationDeliveryChannel.email NotificationDeliveryChannel.email = true
same_channel _ _ = false

abbrev pub same_delivery : NotificationDelivery → NotificationDelivery → Bool
same_delivery d e =
    d.user_id == e.user_id && same_key d.event_key e.event_key && same_channel d.channel e.channel

-- One row of `createMany` with `skipDuplicates`.
unfoldable pub add_delivery :
    NotificationDelivery → List NotificationDelivery → List NotificationDelivery
add_delivery delivery known =
    if any_of (same_delivery delivery) known then known else known ++ (delivery ∷ [])

abbrev pub delivery_of : NotificationDeliveryChannel → Notification → NotificationDelivery
delivery_of channel n = record { user_id = n.user_id; event_key = n.event_key; channel = channel }

-- A delivery for each channel of each notification that the input's user and key lead to.
unfoldable pub add_deliveries :
    Notification → List Notification → List NotificationDelivery → List NotificationDelivery
unfolding add_delivery
add_deliveries input [] known = known
add_deliveries input (n ∷ notifications) known = add_deliveries input notifications (
    if same_event input n
    then add_delivery (delivery_of NotificationDeliveryChannel.email n)
        (add_delivery (delivery_of NotificationDeliveryChannel.realtime n) known)
    else known)

-- `createIdempotent` for one input: `skipDuplicates` keeps (user, event key) unique.
unfoldable pub create_idempotent : Notification → Tx (Unit {0})
unfolding add_deliveries
create_idempotent input = do
  known ← gets (λ s. any_of (same_event input) s.notifications)
  branch known (pure tt)
      (modify (λ s. record s { notifications = s.notifications ++ (input ∷ []) }))
  modify (λ s. record s {
    notification_deliveries = add_deliveries input s.notifications s.notification_deliveries;
  })

-- The trip of an active assignment must have the route of the transfer and have arrived.
unfoldable pub assert_trip_arrived :
    Option ℕ → ℕ → WarehouseTransfer → Option (LineHaulTripTransfer × LineHaulTrip) → Tx (Unit {0})
unfolding assert_standalone_receive
assert_trip_arrived cutover now transfer none =
    assert_standalone_receive cutover now transfer.dispatched_at
assert_trip_arrived cutover now transfer (some (row, trip)) = do
  throw_if
      (trip.origin_warehouse_id != transfer.from_warehouse_id
        || trip.destination_warehouse_id != transfer.to_warehouse_id)
      (conflict line_haul_transfer_route_mismatch)
  throw_if (trip.status != LineHaulTripStatus.arrived) (conflict line_haul_trip_not_arrived)

-- The `where` and the `data` of the two updates.
unfoldable pub receive_where : ℕ → WarehouseTransfer → Bool
receive_where id row = row.id == id && row.status == TransferStatus.in_transit

unfoldable pub receive_data : ℕ → ℕ → WarehouseTransfer → WarehouseTransfer
receive_data actor_id now row = record row {
  status = TransferStatus.completed;
  received_by_id = some actor_id;
  received_at = some now;
}

unfoldable pub arrive_where : Shipment → Shipment → Bool
arrive_where shipment row =
    row.id == shipment.id && row.status == shipment.status && row.version == shipment.version

unfoldable pub arrive_data : ℕ → Shipment → Shipment
arrive_data warehouse_id row = record row {
  current_warehouse_id = some warehouse_id;
  status = ShipmentStatus.at_destination_warehouse;
  version = row.version + 1;
}

received_event : ReceiveTransferInput → WarehouseTransfer → ℕ → TrackingEvent
received_event input transfer now = record {
  shipment_id = transfer.shipment_id;
  status = ShipmentStatus.at_destination_warehouse;
  event_type = "WAREHOUSE_TRANSFER_RECEIVED";
  actor_id = input.actor.id;
  warehouse_id = some input.warehouse_id;
  created_at = now;
}

flow_name : Bool → String
flow_name true = "LEGACY_STANDALONE"
flow_name false = "COMPATIBILITY_STANDALONE"

receive_metadata :
    Option ℕ
    → WarehouseTransfer
    → Option (LineHaulTripTransfer × LineHaulTrip)
    → List (String × Json)
unfolding flow_name is_legacy_standalone
receive_metadata cutover transfer (some (row, trip)) =
    ("lineHaulTripId", identifier row.trip_id) ∷ []
receive_metadata cutover transfer none =
    ("flow", word (flow_name (is_legacy_standalone cutover transfer.dispatched_at)))
    ∷ ("enforcementFrom", or_null date cutover)
    ∷ ("dispatchedAt", or_null date transfer.dispatched_at)
    ∷ []

-- `note?.trim() || null`.
note_value : Option Text → Json
note_value none = null
note_value (some note) = elim (trim note) [ [] ↦ null | (c ∷ cs) ↦ text (c ∷ cs) ]

received_audit :
    Option ℕ
    → ReceiveTransferInput
    → WarehouseTransfer
    → Option (LineHaulTripTransfer × LineHaulTrip)
    → AuditLog
unfolding receive_metadata note_value
received_audit cutover input transfer assignment = record {
  actor_id = input.actor.id;
  actor_role = input.actor.role;
  action = "WAREHOUSE_TRANSFER_RECEIVED";
  entity_type = "WAREHOUSE_TRANSFER";
  entity_id = transfer.id;
  before = some (("status", word (warehouse_transfer_status_name transfer.status)) ∷ []);
  after = some (
      ("status", word "COMPLETED")
      ∷ ("receivedById", identifier input.actor.id)
      ∷ ("warehouseId", identifier input.warehouse_id)
      ∷ ("actualWeightGrams", number input.actual_weight_grams)
      ∷ ("note", note_value input.note)
      ∷ []);
  metadata = some (receive_metadata cutover transfer assignment);
  ip_address = input.context.ip_address;
  user_agent = input.context.user_agent;
}

arrived_notification : ReceiveTransferInput → TransferEntity → Notification
arrived_notification input t = record {
  user_id = t.shipment.customer_id;
  event_key = warehouse_destination t.transfer.shipment_id input.warehouse_id;
  notification_type = "WAREHOUSE_ARRIVED";
}

unfoldable pub receive_now :
    (Store → Store)
    → Option ℕ
    → ReceiveTransferInput
    → TransferEntity
    → Option (LineHaulTripTransfer × LineHaulTrip)
    → ℕ
    → Tx TransferTransition
unfolding update_transfers update_shipments track receive_where receive_data arrive_where
    arrive_data received_event received_audit arrived_notification create_idempotent
receive_now others cutover input t assignment now = do
  modify others
  transfer_count ← update_transfers (receive_where t.transfer.id) (receive_data input.actor.id now)
  throw_if (transfer_count != 1) (conflict transfer_concurrent_modification)
  shipment_count ← update_shipments (arrive_where t.shipment) (arrive_data input.warehouse_id)
  throw_if (shipment_count != 1) (conflict shipment_concurrent_modification)
  track (received_event input t.transfer now)
  audit (received_audit cutover input t.transfer assignment)
  create_idempotent (arrived_notification input t)
  found ← gets (transfer_by_id t.transfer.id)
  updated ← or_throw found record_not_found
  pure record { transfer = updated; transitioned = true }

-- The rest of `receive`, once the transfer is not completed yet.
unfoldable pub receive_open :
    (Store → Store)
    → Option ℕ
    → ReceiveTransferInput
    → (checked_at now : ℕ) → TransferEntity
    → Tx TransferTransition
unfolding active_assignment assert_trip_arrived assert_transfer_receive
receive_open others cutover input checked_at now t = do
  throw_if (not t.to_warehouse.is_active) (not_found warehouse_not_found)
  throw_if (t.transfer.status != TransferStatus.in_transit) (conflict invalid_transfer_status)
  assignment ← active_assignment t.transfer.id
  assert_trip_arrived cutover checked_at t.transfer assignment
  assert_transfer_receive t.shipment.status
  receive_now others cutover input t assignment now

unfoldable pub receive :
    (Store → Store) → Option ℕ → (checked_at now : ℕ) → ReceiveTransferInput → Tx TransferTransition
unfolding find_transfer
receive others cutover checked_at now input = do
  t ← find_transfer input.transfer_id
  throw_if (t.transfer.to_warehouse_id != input.warehouse_id)
      (forbidden transfer_destination_mismatch)
  branch (t.transfer.status == TransferStatus.completed)
      (pure record { transfer = t.transfer; transitioned = false })
      (receive_open others cutover input checked_at now t)
