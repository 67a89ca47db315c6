-- ===== src/Tests/Parcels.antt =====
-- Shipments, transfers and manifests at concrete inputs.
use project_logictic.Prelude.{
  All, any_of, Option, find_first, count_where, update_many, ◌≡◌, refl, true, none, some, [], ◌∷◌,
}
use project_logictic.Prelude.Int.{pos}
use project_logictic.Schema.{
  UserRole, ShipmentStatus, ShippingFeePayer, LineHaulTripStatus,
  WarehouseTransferStatus as TransferStatus,
}
use project_logictic.Store.{
  Notification, warehouse_destination, LineHaulTrip, LineHaulTripTransfer, Store, empty_store,
  Shipment, WarehouseTransfer, Actor, ClientContext, ok, Ensures, after,
}
use project_logictic.Transfers.Tables.{
  active_assignment, TransferEntity, DispatchTransferInput, ReceiveTransferInput, find_transfer,
}
use project_logictic.Transfers.Dispatch.{dispatch, dispatch_pending, dispatch_now}
use project_logictic.Transfers.Deliveries.{is_delivered}
use project_logictic.Transfers.Notified.{notified, create_idempotent-Repeats}
use project_logictic.Transfers.Receive.{same_event, receive, receive_open, receive_now}
use project_logictic.Transfers.Placement.{StoreIsPlaced, dispatch-keeps, receive-keeps}
use project_logictic.Transfers.Guards.{MayLeave, dispatch-MayLeave}
use project_logictic.Transfers.Arrivals.{MayArrive, receive-MayArrive}

abbrev keeper : Actor
keeper = record { id = 30; role = UserRole.admin }

abbrev unknown : ClientContext
unknown = record { ip_address = none; user_agent = none }

abbrev parcel : Shipment
parcel = record {
  id = 7;
  customer_id = 40;
  cod_amount = pos 0;
  total_fee = pos 25000;
  shipping_fee_payer = ShippingFeePayer.sender;
  status = ShipmentStatus.at_origin_warehouse;
  version = 4;
  origin_warehouse_id = some 1;
  destination_warehouse_id = some 2;
  current_warehouse_id = some 1;
  return_warehouse_id = none;
}

abbrev planned_transfer : WarehouseTransfer
planned_transfer = record {
  id = 9;
  shipment_id = 7;
  from_warehouse_id = 1;
  to_warehouse_id = 2;
  status = TransferStatus.pending;
  dispatched_by_id = none;
  dispatched_at = none;
  received_by_id = none;
  received_at = none;
}

abbrev yard : Store
yard = record empty_store {
  shipments = parcel ∷ [];
  transfers = planned_transfer ∷ [];
  warehouses =
      record { id = 1; name = []; is_active = true }
      ∷ record { id = 2; name = []; is_active = true }
      ∷ [];
  trips =
      record {
        id = 3;
        origin_warehouse_id = 1;
        destination_warehouse_id = 2;
        driver_id = 5;
        vehicle_id = 6;
        status = LineHaulTripStatus.in_transit;
        scheduled_start_at = some 500;
        scheduled_end_at = some 900;
        cancelled_at = none;
        cancellation_reason = none;
        cancelled_by_id = none;
        version = 3;
      }
      ∷ [];
  trip_transfers =
      record {
        id = 1;
        trip_id = 3;
        warehouse_transfer_id = 9;
        is_active = true;
        assigned_by_id = 40;
        removed_by_id = none;
        removed_at = none;
      }
      ∷ [];
}

abbrev quiet : Store → Store
quiet s = s

abbrev departure : DispatchTransferInput
departure = record {
  warehouse_id = 1;
  transfer_id = 9;
  actor = keeper;
  context = unknown;
  line_haul_trip_id = some 3;
}

abbrev reception : ReceiveTransferInput
reception = record {
  warehouse_id = 2;
  transfer_id = 9;
  actual_weight_grams = pos 1200;
  note = none;
  actor = keeper;
  context = unknown;
}

yard-IsPlaced : StoreIsPlaced yard
yard-IsPlaced = ((refl, tt), ((refl, refl), tt))

-- After the cutover at 100, with the trip.
abbrev gone : Store
gone = after yard (dispatch quiet (some 100) 500 departure yard)

dispatch-keeps_example :
    Ensures (λ r. StoreIsPlaced r.1) (dispatch quiet (some 100) 500 departure yard)
dispatch-keeps_example =
    dispatch-keeps quiet yard yard-IsPlaced yard-IsPlaced (some 100) 500 departure

abbrev on_the_road : WarehouseTransfer
on_the_road = record planned_transfer {
  status = TransferStatus.in_transit;
  dispatched_by_id = some 30;
  dispatched_at = some 500;
}

departs :
    dispatch quiet (some 100) 500 departure yard
    ≡ ok (record { transfer = on_the_road; transitioned = true }, gone)
unfolding dispatch dispatch_pending dispatch_now find_first count_where update_many
departs = refl

dispatch-MayLeave_example :
    (t : TransferEntity) × ((find_transfer 9 yard ≡ ok (t, yard))
      × MayLeave (some 100) 500 departure t)
dispatch-MayLeave_example =
    dispatch-MayLeave quiet (some 100) 500 departure yard gone
      (record { transfer = on_the_road; transitioned = true }) departs refl

abbrev road : Store
road = record yard {
  shipments =
      record parcel { status = ShipmentStatus.in_transit; current_warehouse_id = none; version = 5 }
      ∷ [];
  transfers = on_the_road ∷ [];
  trips =
      record {
        id = 3;
        origin_warehouse_id = 1;
        destination_warehouse_id = 2;
        driver_id = 5;
        vehicle_id = 6;
        status = LineHaulTripStatus.arrived;
        scheduled_start_at = some 500;
        scheduled_end_at = some 900;
        cancelled_at = none;
        cancellation_reason = none;
        cancelled_by_id = none;
        version = 3;
      }
      ∷ [];
}

road-IsPlaced : StoreIsPlaced road
road-IsPlaced = ((refl, tt), ((refl, (refl, refl)), tt))

receive-keeps_example :
    Ensures (λ r. StoreIsPlaced r.1) (receive quiet (some 100) 600 601 reception road)
receive-keeps_example =
    receive-keeps quiet road road-IsPlaced road-IsPlaced (some 100) 600 601 reception

abbrev home : Store
home = after road (receive quiet (some 100) 600 601 reception road)

abbrev at_home : WarehouseTransfer
at_home = record on_the_road {
  status = TransferStatus.completed;
  received_by_id = some 30;
  received_at = some 601;
}

arrives :
    receive quiet (some 100) 600 601 reception road
    ≡ ok (record { transfer = at_home; transitioned = true }, home)
unfolding receive receive_open receive_now find_first count_where update_many any_of
arrives = refl

receive-MayArrive_example :
    (t : TransferEntity) × ((find_transfer 9 road ≡ ok (t, road))
      × ((assignment : Option (LineHaulTripTransfer × LineHaulTrip)) × ((active_assignment
                t.transfer.id road
              ≡ ok (assignment, road))
            × MayArrive (some 100) 600 reception t assignment)))
receive-MayArrive_example =
    receive-MayArrive quiet (some 100) 600 601 reception road home
      (record { transfer = at_home; transitioned = true }) arrives refl

abbrev news : Notification
news = record {
  user_id = 40;
  event_key = warehouse_destination 7 2;
  notification_type = "ARRIVED_AT_DESTINATION_WAREHOUSE";
}

create_idempotent-Repeats_example :
    (any_of (same_event news) (notified news yard).notifications ≡ true)
    × (All
          (λ n. is_delivered news (notified news yard).notification_deliveries n ≡ true)
          (notified news yard).notifications
        × (notified news (notified news yard) ≡ notified news yard))
create_idempotent-Repeats_example = create_idempotent-Repeats news yard
