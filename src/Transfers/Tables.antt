-- ===== src/Transfers/Tables.antt =====
-- The inputs of WarehouseTransferLifecycleService and the tables that it reads and updates
-- (backend/src/modules/warehouses/warehouse-transfer-lifecycle.service.ts).
use project_logictic.Prelude.{
  ℕ, ◌&&◌, Bool, Option, none, some, [], ◌∷◌, ◌++◌, find_first, count_where, update_many,
}
use project_logictic.Prelude.Int.{ℤ}
use project_logictic.Prelude.Eq.{◌==◌, nat_eq, option_eq}
use project_logictic.Text.{Text}
use project_logictic.Schema.{
  shipment_status_eq, line_haul_trip_status_eq, warehouse_transfer_status_eq,
}
use project_logictic.Store.{
  Store, Shipment, Warehouse, WarehouseTransfer, LineHaulTrip, LineHaulTripTransfer, TrackingEvent,
  Actor, ClientContext, Tx, pure, or_throw, gets, modify, ◌>>=◌, ◌>>◌, not_found, record_not_found,
  transfer_not_found,
}

-- The transfer with the rows that `warehouseTransferResponseInclude` joins to it.
pub record TransferEntity : Type 0 where
  pub transfer : WarehouseTransfer
  pub shipment : Shipment
  pub from_warehouse : Warehouse
  pub to_warehouse : Warehouse

pub record TransferTransition : Type 0 where
  pub transfer : WarehouseTransfer
  pub transitioned : Bool

pub record DispatchTransferInput : Type 0 where
  pub warehouse_id : ℕ
  pub transfer_id : ℕ
  pub actor : Actor
  pub context : ClientContext
  pub line_haul_trip_id : Option ℕ

pub record ReceiveTransferInput : Type 0 where
  pub warehouse_id : ℕ
  pub transfer_id : ℕ
  pub actual_weight_grams : ℤ
  pub note : Option Text
  pub actor : Actor
  pub context : ClientContext

abbrev pub transfer_by_id : ℕ → Store → Option WarehouseTransfer
transfer_by_id id s = find_first (λ row. row.id == id) s.transfers

-- `findUnique` with its joins: a foreign key always leads to a row.
unfoldable pub find_transfer : ℕ → Tx TransferEntity
find_transfer id = do
  found ← gets (transfer_by_id id)
  transfer ← or_throw found (not_found transfer_not_found)
  shipments ← gets (λ s. find_first (λ row. row.id == transfer.shipment_id) s.shipments)
  shipment ← or_throw shipments record_not_found
  origins ← gets (λ s. find_first (λ row. row.id == transfer.from_warehouse_id) s.warehouses)
  origin ← or_throw origins record_not_found
  destinations ← gets (λ s. find_first (λ row. row.id == transfer.to_warehouse_id) s.warehouses)
  destination ← or_throw destinations record_not_found
  pure record {
    transfer = transfer;
    shipment = shipment;
    from_warehouse = origin;
    to_warehouse = destination;
  }

unfoldable pub with_trip :
    Option LineHaulTripTransfer → Tx (Option (LineHaulTripTransfer × LineHaulTrip))
with_trip none = pure none
with_trip (some row) = do
  trips ← gets (λ s. find_first (λ trip. trip.id == row.trip_id) s.trips)
  trip ← or_throw trips record_not_found
  pure (some (row, trip))

-- The active assignment of a transfer, with the trip that it joins.
unfoldable pub active_assignment : ℕ → Tx (Option (LineHaulTripTransfer × LineHaulTrip))
unfolding with_trip
active_assignment transfer_id = do
  found ← gets (λ s.
      find_first (λ row. row.warehouse_transfer_id == transfer_id && row.is_active)
        s.trip_transfers)
  with_trip found

unfoldable pub update_transfers :
    (WarehouseTransfer → Bool) → (WarehouseTransfer → WarehouseTransfer) → Tx ℕ
update_transfers test change = do
  count ← gets (λ s. count_where test s.transfers)
  modify (λ s. record s { transfers = update_many test change s.transfers })
  pure count

unfoldable pub update_shipments : (Shipment → Bool) → (Shipment → Shipment) → Tx ℕ
update_shipments test change = do
  count ← gets (λ s. count_where test s.shipments)
  modify (λ s. record s { shipments = update_many test change s.shipments })
  pure count

unfoldable pub track : TrackingEvent → Tx (Unit {0})
track event = modify (λ s. record s { tracking = s.tracking ++ (event ∷ []) })
