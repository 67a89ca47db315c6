-- ===== src/Transfers/Dispatch.antt =====
-- `assertDispatchableTransfer` and `dispatch` of WarehouseTransferLifecycleService
-- (backend/src/modules/warehouses/warehouse-transfer-lifecycle.service.ts): a transfer leaves its
-- origin. The argument `cutover` is that of the flow policy, `now` is the time, and `others` is what
-- other transactions commit between the reads of the call and its guarded updates.
use project_logictic.Prelude.{
  ℕ, ◌+◌, ◌&&◌, ◌||◌, Bool, true, false, Option, none, some, not, is_some, List, [], ◌∷◌, String,
}
use project_logictic.Prelude.Eq.{◌==◌, ◌!=◌, nat_eq, option_eq}
use project_logictic.Schema.{
  ShipmentStatus, shipment_status_eq, LineHaulTripStatus, line_haul_trip_status_eq,
  WarehouseTransferStatus as TransferStatus, warehouse_transfer_status_eq,
}
use project_logictic.Store.{
  Store, Shipment, WarehouseTransfer, LineHaulTrip, LineHaulTripTransfer, TrackingEvent, AuditLog,
  Json, null, word, identifier, date, Tx, pure, throw, throw_if, or_throw, branch, gets, modify,
  audit, ◌>>=◌, ◌>>◌, conflict, forbidden, record_not_found, line_haul_transfer_route_mismatch,
  warehouse_transfer_not_pending, shipment_not_at_origin_warehouse, transfer_destination_mismatch,
  transfer_origin_mismatch, line_haul_manifest_ownership_invalid,
  warehouse_transfer_assigned_to_trip, line_haul_warehouse_inactive,
  transfer_concurrent_modification, shipment_concurrent_modification,
}
use project_logictic.Fees.Table.{or_null}
use project_logictic.Shipments.Transition.{assert_transfer_dispatch}
use project_logictic.Transfers.Flow.{assert_standalone_dispatch}
use project_logictic.Transfers.Tables.{
  TransferEntity, TransferTransition, DispatchTransferInput, transfer_by_id, find_transfer,
  active_assignment, update_transfers, update_shipments, track,
}

unfoldable pub assert_dispatchable_transfer :
    TransferEntity → (origin destination : ℕ) → Tx (Unit {0})
unfolding assert_transfer_dispatch
assert_dispatchable_transfer t origin destination = do
  throw_if (t.transfer.from_warehouse_id != origin || t.transfer.to_warehouse_id != destination)
      (conflict line_haul_transfer_route_mismatch)
  throw_if (t.transfer.status != TransferStatus.pending) (conflict warehouse_transfer_not_pending)
  throw_if (t.shipment.current_warehouse_id != some origin)
      (conflict shipment_not_at_origin_warehouse)
  throw_if (t.shipment.destination_warehouse_id != some destination)
      (conflict transfer_destination_mismatch)
  assert_transfer_dispatch t.shipment.status

-- Who dispatches: the trip whose manifest has the transfer, or nobody's trip.
unfoldable pub assert_manifest_owner :
    Option ℕ → Option (LineHaulTripTransfer × LineHaulTrip) → Tx (Unit {0})
assert_manifest_owner (some trip_id) (some (row, trip)) =
    throw_if (row.trip_id != trip_id || trip.status != LineHaulTripStatus.in_transit)
      (conflict line_haul_manifest_ownership_invalid)
assert_manifest_owner (some trip_id) none = throw (conflict line_haul_manifest_ownership_invalid)
assert_manifest_owner none (some assignment) = throw (conflict warehouse_transfer_assigned_to_trip)
assert_manifest_owner none none = pure tt

unfoldable pub assert_standalone : Option ℕ → ℕ → Option ℕ → Tx (Unit {0})
unfolding assert_standalone_dispatch
assert_standalone cutover now none = assert_standalone_dispatch cutover now
assert_standalone cutover now (some trip_id) = pure tt

-- The `where` and the `data` of the two updates.
unfoldable pub dispatch_where : ℕ → WarehouseTransfer → Bool
dispatch_where id row = row.id == id && row.status == TransferStatus.pending

unfoldable pub dispatch_data : ℕ → ℕ → WarehouseTransfer → WarehouseTransfer
dispatch_data actor_id now row = record row {
  status = TransferStatus.in_transit;
  dispatched_by_id = some actor_id;
  dispatched_at = some now;
}

unfoldable pub leave_where : TransferEntity → ℕ → Shipment → Bool
leave_where t warehouse_id row =
    row.id == t.shipment.id
    && row.status == t.shipment.status
    && row.version == t.shipment.version
    && row.current_warehouse_id == some warehouse_id
    && row.destination_warehouse_id == some t.transfer.to_warehouse_id

unfoldable pub leave_data : Shipment → Shipment
leave_data row = record row {
  status = ShipmentStatus.in_transit;
  current_warehouse_id = none;
  version = row.version + 1;
}

dispatched_event : DispatchTransferInput → WarehouseTransfer → ℕ → TrackingEvent
dispatched_event input transfer now = record {
  shipment_id = transfer.shipment_id;
  status = ShipmentStatus.in_transit;
  event_type = "WAREHOUSE_TRANSFER_DISPATCHED";
  actor_id = input.actor.id;
  warehouse_id = some input.warehouse_id;
  created_at = now;
}

dispatch_metadata : Option ℕ → Option ℕ → List (String × Json)
dispatch_metadata cutover (some trip_id) = ("lineHaulTripId", identifier trip_id) ∷ []
dispatch_metadata cutover none =
    ("flow", word "COMPATIBILITY_STANDALONE") ∷ ("enforcementFrom", or_null date cutover) ∷ []

dispatched_audit : Option ℕ → DispatchTransferInput → WarehouseTransfer → AuditLog
unfolding dispatch_metadata
dispatched_audit cutover input transfer = record {
  actor_id = input.actor.id;
  actor_role = input.actor.role;
  action = "WAREHOUSE_TRANSFER_DISPATCHED";
  entity_type = "WAREHOUSE_TRANSFER";
  entity_id = transfer.id;
  before = some (("status", word "PENDING") ∷ []);
  after = some (
      ("status", word "IN_TRANSIT")
      ∷ ("shipmentStatus", word "IN_TRANSIT")
      ∷ ("currentWarehouseId", null)
      ∷ []);
  metadata = some (dispatch_metadata cutover input.line_haul_trip_id);
  ip_address = input.context.ip_address;
  user_agent = input.context.user_agent;
}

-- The two guarded updates, the tracking event and the audit entry.
unfoldable pub dispatch_now :
    (Store → Store) → Option ℕ → DispatchTransferInput → TransferEntity → ℕ → Tx TransferTransition
unfolding update_transfers update_shipments track dispatch_where dispatch_data leave_where
    leave_data dispatched_event dispatched_audit
dispatch_now others cutover input t now = do
  modify others
  transfer_count ←
      update_transfers (dispatch_where t.transfer.id) (dispatch_data input.actor.id now)
  throw_if (transfer_count != 1) (conflict transfer_concurrent_modification)
  shipment_count ← update_shipments (leave_where t input.warehouse_id) leave_data
  throw_if (shipment_count != 1) (conflict shipment_concurrent_modification)
  track (dispatched_event input t.transfer now)
  audit (dispatched_audit cutover input t.transfer)
  found ← gets (transfer_by_id t.transfer.id)
  updated ← or_throw found record_not_found
  pure record { transfer = updated; transitioned = true }

-- The rest of `dispatch`, once the transfer is not dispatched yet.
unfoldable pub dispatch_pending :
    (Store → Store) → Option ℕ → DispatchTransferInput → ℕ → TransferEntity → Tx TransferTransition
unfolding active_assignment assert_manifest_owner assert_dispatchable_transfer assert_standalone
dispatch_pending others cutover input now t = do
  assignment ← active_assignment t.transfer.id
  assert_manifest_owner input.line_haul_trip_id assignment
  throw_if (not t.from_warehouse.is_active || not t.to_warehouse.is_active)
      (conflict line_haul_warehouse_inactive)
  assert_dispatchable_transfer t input.warehouse_id t.transfer.to_warehouse_id
  assert_standalone cutover now input.line_haul_trip_id
  dispatch_now others cutover input t now

unfoldable pub dispatch :
    (Store → Store) → Option ℕ → ℕ → DispatchTransferInput → Tx TransferTransition
unfolding find_transfer
dispatch others cutover now input = do
  t ← find_transfer input.transfer_id
  throw_if (t.transfer.from_warehouse_id != input.warehouse_id) (forbidden transfer_origin_mismatch)
  branch
      ((t.transfer.status == TransferStatus.in_transit
          || t.transfer.status == TransferStatus.completed)
        && is_some t.transfer.dispatched_at)
      (pure record { transfer = t.transfer; transitioned = false })
      (dispatch_pending others cutover input now t)
