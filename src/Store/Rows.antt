-- ===== src/Store/Rows.antt =====
-- The rows of the database tables (backend/prisma/schema.prisma). Ids are compared only, so they
-- are numbers; a date is its number of milliseconds; `Int` is ℤ where it can be an amount. Columns
-- that no modelled rule reads or writes are left out.
use project_logictic.Prelude.{ℕ, Bool, Option, List, String}
use project_logictic.Prelude.Int.{ℤ}
use project_logictic.Text.{Text}
use project_logictic.Schema.{
  UserRole, UserStatus, ShipmentStatus, ShippingFeePayer, ShippingFeeTransactionStatus,
  DriverStatus, DriverCapability, LineHaulTripStatus, LineHaulVehicleStatus, CodTransactionStatus,
  CodRemittanceStatus, CodPayoutStatus, CodPayoutMethod, WarehouseTransferStatus,
  NotificationDeliveryChannel,
}

pub record User : Type 0 where
  pub id : ℕ
  pub role : UserRole
  pub status : UserStatus

pub record DriverProfile : Type 0 where
  pub id : ℕ
  pub user_id : ℕ
  pub operating_warehouse_id : Option ℕ
  pub capabilities : List DriverCapability
  pub status : DriverStatus
  pub is_online : Bool
  pub is_available : Bool
  pub version : ℕ

pub record PricingConfig : Type 0 where
  pub id : ℕ
  pub version : ℕ
  pub base_fee : ℕ
  pub included_weight_grams : ℕ
  pub extra_weight_fee_per_kg : ℕ
  pub cod_fee_basis_points : ℕ
  pub distance_fee : ℕ
  pub surcharge : ℕ
  pub discount : ℕ
  pub is_active : Bool
  pub created_by_id : Option ℕ

pub record Warehouse : Type 0 where
  pub id : ℕ
  pub name : Text
  pub is_active : Bool

pub record Shipment : Type 0 where
  pub id : ℕ
  pub customer_id : ℕ
  pub cod_amount : ℤ
  pub total_fee : ℤ
  pub shipping_fee_payer : ShippingFeePayer
  pub status : ShipmentStatus
  pub version : ℕ
  pub origin_warehouse_id : Option ℕ
  pub destination_warehouse_id : Option ℕ
  pub current_warehouse_id : Option ℕ
  pub return_warehouse_id : Option ℕ

pub record ShippingFeeTransaction : Type 0 where
  pub id : ℕ
  pub shipment_id : ℕ
  pub payer : ShippingFeePayer
  pub expected_amount : ℤ
  pub collected_amount : Option ℤ
  pub remitted_amount : Option ℤ
  pub paid_amount : Option ℤ
  pub status : ShippingFeeTransactionStatus
  pub collected_by_driver_id : Option ℕ
  pub remitted_by_driver_id : Option ℕ
  pub settled_by_id : Option ℕ
  pub collected_at : Option ℕ
  pub remitted_at : Option ℕ
  pub settled_at : Option ℕ
  pub paid_at : Option ℕ
  pub cancelled_at : Option ℕ

pub record ShippingFeeDispute : Type 0 where
  pub id : ℕ
  pub shipping_fee_transaction_id : ℕ
  pub from_status : ShippingFeeTransactionStatus
  pub reason : Text
  pub opened_by_id : ℕ
  pub opened_at : ℕ
  pub resolved_by_id : Option ℕ
  pub resolved_at : Option ℕ
  pub resolution_note : Option Text

pub record CodTransaction : Type 0 where
  pub id : ℕ
  pub shipment_id : ℕ
  pub expected_amount : ℤ
  pub collected_amount : Option ℤ
  pub remitted_amount : Option ℤ
  pub status : CodTransactionStatus
  pub collected_by_driver_id : Option ℕ
  pub collected_at : Option ℕ
  pub remitted_at : Option ℕ
  pub settled_at : Option ℕ
  pub version : ℕ

pub record CodRemittance : Type 0 where
  pub id : ℕ
  pub cod_transaction_id : ℕ
  pub amount : ℤ
  pub client_request_id : ℕ
  pub submitted_by_driver_id : ℕ
  pub status : CodRemittanceStatus
  pub reviewed_by_admin_id : Option ℕ
  pub reviewed_at : Option ℕ
  pub rejection_reason : Option Text
  pub note : Option Text
  pub version : ℕ

pub record CodPayout : Type 0 where
  pub id : ℕ
  pub cod_transaction_id : ℕ
  pub customer_id : ℕ
  pub amount : ℤ
  pub method : CodPayoutMethod
  pub reference : Option Text
  pub note : Option Text
  pub status : CodPayoutStatus
  pub created_by_admin_id : ℕ
  pub sent_by_admin_id : Option ℕ
  pub sent_at : Option ℕ
  pub customer_confirmed_at : Option ℕ
  pub disputed_at : Option ℕ
  pub dispute_reason : Option Text
  pub version : ℕ

pub record WarehouseTransfer : Type 0 where
  pub id : ℕ
  pub shipment_id : ℕ
  pub from_warehouse_id : ℕ
  pub to_warehouse_id : ℕ
  pub status : WarehouseTransferStatus
  pub dispatched_by_id : Option ℕ
  pub dispatched_at : Option ℕ
  pub received_by_id : Option ℕ
  pub received_at : Option ℕ

pub record LineHaulTrip : Type 0 where
  pub id : ℕ
  pub origin_warehouse_id : ℕ
  pub destination_warehouse_id : ℕ
  pub driver_id : ℕ
  pub vehicle_id : ℕ
  pub status : LineHaulTripStatus
  pub scheduled_start_at : Option ℕ
  pub scheduled_end_at : Option ℕ
  pub cancelled_at : Option ℕ
  pub cancellation_reason : Option Text
  pub cancelled_by_id : Option ℕ
  pub version : ℕ

pub record LineHaulTripTransfer : Type 0 where
  pub id : ℕ
  pub trip_id : ℕ
  pub warehouse_transfer_id : ℕ
  pub is_active : Bool
  pub assigned_by_id : ℕ
  pub removed_by_id : Option ℕ
  pub removed_at : Option ℕ

pub record LineHaulVehicle : Type 0 where
  pub id : ℕ
  pub status : LineHaulVehicleStatus
  pub capacity_weight_grams : Option ℤ

pub record TrackingEvent : Type 0 where
  pub shipment_id : ℕ
  pub status : ShipmentStatus
  pub event_type : String
  pub actor_id : ℕ
  pub warehouse_id : Option ℕ
  pub created_at : ℕ

-- The event keys that the modelled services write.
pub data EventKey : Type 0 where
  warehouse_destination : (shipment_id warehouse_id : ℕ) → EventKey

pub record Notification : Type 0 where
  pub user_id : ℕ
  pub event_key : EventKey
  pub notification_type : String

-- A delivery names its notification by the pair that is unique among them.
pub record NotificationDelivery : Type 0 where
  pub user_id : ℕ
  pub event_key : EventKey
  pub channel : NotificationDeliveryChannel

-- The values of a JSON object.
pub data Json : Type 0 where
  null : Json
  flag : Bool → Json
  number : ℤ → Json
  text : Text → Json
  word : String → Json
  identifier : ℕ → Json
  date : ℕ → Json

pub record AuditLog : Type 0 where
  pub actor_id : ℕ
  pub actor_role : UserRole
  pub action : String
  pub entity_type : String
  pub entity_id : ℕ
  pub before : Option (List (String × Json))
  pub after : Option (List (String × Json))
  pub metadata : Option (List (String × Json))
  pub ip_address : Option Text
  pub user_agent : Option Text
