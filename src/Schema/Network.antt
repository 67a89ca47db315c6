-- ===== src/Schema/Network.antt =====
-- The enumerations of the line-haul network (backend/prisma/schema.prisma), with their equality tests.
use project_logictic.Prelude.{ℕ, ◌≡◌, refl, [], ◌∷◌, String}
use project_logictic.Prelude.Eq.{Eq, enum_eq}
use project_logictic.Schema.Code.{nth}

pub data LineHaulVehicleStatus : Type 0 where
  available in_use maintenance inactive : LineHaulVehicleStatus

abbrev pub line_haul_vehicle_status_code : LineHaulVehicleStatus → ℕ
line_haul_vehicle_status_code LineHaulVehicleStatus.available = 0
line_haul_vehicle_status_code LineHaulVehicleStatus.in_use = 1
line_haul_vehicle_status_code LineHaulVehicleStatus.maintenance = 2
line_haul_vehicle_status_code LineHaulVehicleStatus.inactive = 3

abbrev pub line_haul_vehicle_status_of_code : ℕ → LineHaulVehicleStatus
line_haul_vehicle_status_of_code = nth LineHaulVehicleStatus.available (
    LineHaulVehicleStatus.available ∷ LineHaulVehicleStatus.in_use
    ∷ LineHaulVehicleStatus.maintenance ∷ LineHaulVehicleStatus.inactive ∷ [])

pub line_haul_vehicle_status_inverse :
    (a : LineHaulVehicleStatus)
    → line_haul_vehicle_status_of_code (line_haul_vehicle_status_code a) ≡ a
line_haul_vehicle_status_inverse LineHaulVehicleStatus.available = refl
line_haul_vehicle_status_inverse _ = refl

instance abbrev pub line_haul_vehicle_status_eq : Eq LineHaulVehicleStatus
line_haul_vehicle_status_eq =
    enum_eq line_haul_vehicle_status_code line_haul_vehicle_status_of_code
      line_haul_vehicle_status_inverse

pub data LineHaulTripStatus : Type 0 where
  planned ready in_transit arrived cancelled : LineHaulTripStatus

abbrev pub line_haul_trip_status_code : LineHaulTripStatus → ℕ
line_haul_trip_status_code LineHaulTripStatus.planned = 0
line_haul_trip_status_code LineHaulTripStatus.ready = 1
line_haul_trip_status_code LineHaulTripStatus.in_transit = 2
line_haul_trip_status_code LineHaulTripStatus.arrived = 3
line_haul_trip_status_code LineHaulTripStatus.cancelled = 4

abbrev pub line_haul_trip_status_of_code : ℕ → LineHaulTripStatus
line_haul_trip_status_of_code = nth LineHaulTripStatus.planned (
    LineHaulTripStatus.planned ∷ LineHaulTripStatus.ready ∷ LineHaulTripStatus.in_transit
    ∷ LineHaulTripStatus.arrived ∷ LineHaulTripStatus.cancelled ∷ [])

pub line_haul_trip_status_inverse :
    (a : LineHaulTripStatus) → line_haul_trip_status_of_code (line_haul_trip_status_code a) ≡ a
line_haul_trip_status_inverse LineHaulTripStatus.planned = refl
line_haul_trip_status_inverse _ = refl

instance abbrev pub line_haul_trip_status_eq : Eq LineHaulTripStatus
line_haul_trip_status_eq =
    enum_eq line_haul_trip_status_code line_haul_trip_status_of_code line_haul_trip_status_inverse

abbrev pub line_haul_trip_status_name : LineHaulTripStatus → String
line_haul_trip_status_name LineHaulTripStatus.planned = "PLANNED"
line_haul_trip_status_name LineHaulTripStatus.ready = "READY"
line_haul_trip_status_name LineHaulTripStatus.in_transit = "IN_TRANSIT"
line_haul_trip_status_name LineHaulTripStatus.arrived = "ARRIVED"
line_haul_trip_status_name LineHaulTripStatus.cancelled = "CANCELLED"

pub data RouteMetricMode : Type 0 where
  road_route haversine_fallback : RouteMetricMode

abbrev pub route_metric_mode_code : RouteMetricMode → ℕ
route_metric_mode_code RouteMetricMode.road_route = 0
route_metric_mode_code RouteMetricMode.haversine_fallback = 1

abbrev pub route_metric_mode_of_code : ℕ → RouteMetricMode
route_metric_mode_of_code =
    nth RouteMetricMode.road_route
      (RouteMetricMode.road_route ∷ RouteMetricMode.haversine_fallback ∷ [])

pub route_metric_mode_inverse :
    (a : RouteMetricMode) → route_metric_mode_of_code (route_metric_mode_code a) ≡ a
route_metric_mode_inverse RouteMetricMode.road_route = refl
route_metric_mode_inverse _ = refl

instance abbrev pub route_metric_mode_eq : Eq RouteMetricMode
route_metric_mode_eq =
    enum_eq route_metric_mode_code route_metric_mode_of_code route_metric_mode_inverse

pub data WarehouseTransferStatus : Type 0 where
  pending in_transit completed cancelled : WarehouseTransferStatus

abbrev pub warehouse_transfer_status_code : WarehouseTransferStatus → ℕ
warehouse_transfer_status_code WarehouseTransferStatus.pending = 0
warehouse_transfer_status_code WarehouseTransferStatus.in_transit = 1
warehouse_transfer_status_code WarehouseTransferStatus.completed = 2
warehouse_transfer_status_code WarehouseTransferStatus.cancelled = 3

abbrev pub warehouse_transfer_status_of_code : ℕ → WarehouseTransferStatus
warehouse_transfer_status_of_code = nth WarehouseTransferStatus.pending (
    WarehouseTransferStatus.pending ∷ WarehouseTransferStatus.in_transit
    ∷ WarehouseTransferStatus.completed ∷ WarehouseTransferStatus.cancelled ∷ [])

pub warehouse_transfer_status_inverse :
    (a : WarehouseTransferStatus)
    → warehouse_transfer_status_of_code (warehouse_transfer_status_code a) ≡ a
warehouse_transfer_status_inverse WarehouseTransferStatus.pending = refl
warehouse_transfer_status_inverse _ = refl

instance abbrev pub warehouse_transfer_status_eq : Eq WarehouseTransferStatus
warehouse_transfer_status_eq =
    enum_eq warehouse_transfer_status_code warehouse_transfer_status_of_code
      warehouse_transfer_status_inverse

-- The value's name, as it stands in an audit entry.
unfoldable pub warehouse_transfer_status_name : WarehouseTransferStatus → String
warehouse_transfer_status_name WarehouseTransferStatus.pending = "PENDING"
warehouse_transfer_status_name WarehouseTransferStatus.in_transit = "IN_TRANSIT"
warehouse_transfer_status_name WarehouseTransferStatus.completed = "COMPLETED"
warehouse_transfer_status_name WarehouseTransferStatus.cancelled = "CANCELLED"
