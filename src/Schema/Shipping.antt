-- ===== src/Schema/Shipping.antt =====
-- The enumerations of shipments (backend/prisma/schema.prisma), with their equality tests.
use project_logictic.Prelude.{ℕ, ◌≡◌, refl, [], ◌∷◌, String}
use project_logictic.Prelude.Eq.{Eq, enum_eq}
use project_logictic.Schema.Code.{nth}

pub data ShipmentStatus : Type 0 where
  pending confirmed awaiting_pickup_assignment pickup_assigned pickup_in_progress picked_up
        at_origin_warehouse in_transit at_destination_warehouse awaiting_delivery_assignment
        delivery_assigned out_for_delivery delivered delivery_failed return_requested
        return_in_transit returned cancelled damaged lost :
      ShipmentStatus

abbrev pub shipment_status_code : ShipmentStatus → ℕ
shipment_status_code ShipmentStatus.pending = 0
shipment_status_code ShipmentStatus.confirmed = 1
shipment_status_code ShipmentStatus.awaiting_pickup_assignment = 2
shipment_status_code ShipmentStatus.pickup_assigned = 3
shipment_status_code ShipmentStatus.pickup_in_progress = 4
shipment_status_code ShipmentStatus.picked_up = 5
shipment_status_code ShipmentStatus.at_origin_warehouse = 6
shipment_status_code ShipmentStatus.in_transit = 7
shipment_status_code ShipmentStatus.at_destination_warehouse = 8
shipment_status_code ShipmentStatus.awaiting_delivery_assignment = 9
shipment_status_code ShipmentStatus.delivery_assigned = 10
shipment_status_code ShipmentStatus.out_for_delivery = 11
shipment_status_code ShipmentStatus.delivered = 12
shipment_status_code ShipmentStatus.delivery_failed = 13
shipment_status_code ShipmentStatus.return_requested = 14
shipment_status_code ShipmentStatus.return_in_transit = 15
shipment_status_code ShipmentStatus.returned = 16
shipment_status_code ShipmentStatus.cancelled = 17
shipment_status_code ShipmentStatus.damaged = 18
shipment_status_code ShipmentStatus.lost = 19

abbrev pub shipment_status_of_code : ℕ → ShipmentStatus
shipment_status_of_code = nth ShipmentStatus.pending (
    ShipmentStatus.pending ∷ ShipmentStatus.confirmed ∷ ShipmentStatus.awaiting_pickup_assignment
    ∷ ShipmentStatus.pickup_assigned ∷ ShipmentStatus.pickup_in_progress ∷ ShipmentStatus.picked_up
    ∷ ShipmentStatus.at_origin_warehouse ∷ ShipmentStatus.in_transit
    ∷ ShipmentStatus.at_destination_warehouse ∷ ShipmentStatus.awaiting_delivery_assignment
    ∷ ShipmentStatus.delivery_assigned ∷ ShipmentStatus.out_for_delivery ∷ ShipmentStatus.delivered
    ∷ ShipmentStatus.delivery_failed ∷ ShipmentStatus.return_requested
    ∷ ShipmentStatus.return_in_transit ∷ ShipmentStatus.returned ∷ ShipmentStatus.cancelled
    ∷ ShipmentStatus.damaged ∷ ShipmentStatus.lost ∷ [])

pub shipment_status_inverse :
    (a : ShipmentStatus) → shipment_status_of_code (shipment_status_code a) ≡ a
shipment_status_inverse ShipmentStatus.pending = refl
shipment_status_inverse _ = refl

instance abbrev pub shipment_status_eq : Eq ShipmentStatus
shipment_status_eq = enum_eq shipment_status_code shipment_status_of_code shipment_status_inverse

-- The value's name, as it stands in an audit entry.
unfoldable pub shipment_status_name : ShipmentStatus → String
shipment_status_name ShipmentStatus.pending = "PENDING"
shipment_status_name ShipmentStatus.confirmed = "CONFIRMED"
shipment_status_name ShipmentStatus.awaiting_pickup_assignment = "AWAITING_PICKUP_ASSIGNMENT"
shipment_status_name ShipmentStatus.pickup_assigned = "PICKUP_ASSIGNED"
shipment_status_name ShipmentStatus.pickup_in_progress = "PICKUP_IN_PROGRESS"
shipment_status_name ShipmentStatus.picked_up = "PICKED_UP"
shipment_status_name ShipmentStatus.at_origin_warehouse = "AT_ORIGIN_WAREHOUSE"
shipment_status_name ShipmentStatus.in_transit = "IN_TRANSIT"
shipment_status_name ShipmentStatus.at_destination_warehouse = "AT_DESTINATION_WAREHOUSE"
shipment_status_name ShipmentStatus.awaiting_delivery_assignment = "AWAITING_DELIVERY_ASSIGNMENT"
shipment_status_name ShipmentStatus.delivery_assigned = "DELIVERY_ASSIGNED"
shipment_status_name ShipmentStatus.out_for_delivery = "OUT_FOR_DELIVERY"
shipment_status_name ShipmentStatus.delivered = "DELIVERED"
shipment_status_name ShipmentStatus.delivery_failed = "DELIVERY_FAILED"
shipment_status_name ShipmentStatus.return_requested = "RETURN_REQUESTED"
shipment_status_name ShipmentStatus.return_in_transit = "RETURN_IN_TRANSIT"
shipment_status_name ShipmentStatus.returned = "RETURNED"
shipment_status_name ShipmentStatus.cancelled = "CANCELLED"
shipment_status_name ShipmentStatus.damaged = "DAMAGED"
shipment_status_name ShipmentStatus.lost = "LOST"
