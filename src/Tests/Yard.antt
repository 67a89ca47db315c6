-- ===== src/Tests/Yard.antt =====
-- Planning commands at concrete inputs.
use project_logictic.Prelude.{
  ℕ, refl, true, none, some, List, [], ◌∷◌, find_first, count_where, arith, All, Pointwise,
}
use project_logictic.Prelude.Int.{pos}
use project_logictic.Schema.{
  UserRole, UserStatus, DriverStatus, DriverCapability, LineHaulTripStatus, LineHaulVehicleStatus,
  WarehouseTransferStatus,
}
use project_logictic.Store.{
  Store, empty_store, User, DriverProfile, LineHaulTrip, LineHaulVehicle, WarehouseTransfer, Actor,
  ClientContext, int, Ensures,
}
use project_logictic.LineHaul.Capacity.{PackageSnapshot, object, value, undefined}
use project_logictic.LineHaul.Policy.{instant}
use project_logictic.LineHaul.Booking.{schedule}
use project_logictic.LineHaul.Loading.{is_active_assignment, assign_transfer}
use project_logictic.LineHaul.Fits.{Fits, assign_transfer-Fits}
use project_logictic.LineHaul.Planned.{IsPlanned}
use project_logictic.LineHaul.History.{
  Reaches, IsScheduled, execute_all-Reaches, execute_all-IsScheduled,
}
use project_logictic.LineHaul.Carried.{Carried, execute_all-Carried}
use project_logictic.LineHaul.Service.{
  Command, book, give_back, give_up, load, unload, execute_all, execute_all-IsPlanned,
}

abbrev nowhere : ClientContext
nowhere = record { ip_address = none; user_agent = none }

abbrev dispatcher : Actor
dispatcher = record { id = 50; role = UserRole.dispatcher }

abbrev haul_user : User
haul_user = record { id = 20; role = UserRole.driver; status = UserStatus.active }

abbrev hauler : DriverProfile
hauler = record {
  id = 5;
  user_id = 20;
  operating_warehouse_id = none;
  capabilities = DriverCapability.line_haul ∷ [];
  status = DriverStatus.available;
  is_online = true;
  is_available = true;
  version = 0;
}

abbrev truck : LineHaulVehicle
truck = record {
  id = 6;
  status = LineHaulVehicleStatus.available;
  capacity_weight_grams = some (pos 5000);
}

abbrev trip : ℕ → LineHaulTrip
trip id = record {
  id = id;
  origin_warehouse_id = 1;
  destination_warehouse_id = 2;
  driver_id = 5;
  vehicle_id = 6;
  status = LineHaulTripStatus.planned;
  scheduled_start_at = none;
  scheduled_end_at = none;
  cancelled_at = none;
  cancellation_reason = none;
  cancelled_by_id = none;
  version = 0;
}

abbrev parcel_transfer : WarehouseTransfer
parcel_transfer = record {
  id = 9;
  shipment_id = 7;
  from_warehouse_id = 1;
  to_warehouse_id = 2;
  status = WarehouseTransferStatus.pending;
  dispatched_by_id = none;
  dispatched_at = none;
  received_by_id = none;
  received_at = none;
}

abbrev yard : Store
yard = record empty_store {
  users = haul_user ∷ [];
  drivers = hauler ∷ [];
  vehicles = truck ∷ [];
  trips = trip 3 ∷ trip 4 ∷ [];
  transfers = parcel_transfer ∷ [];
}

-- Each parcel weighs two kilograms.
abbrev two_kilograms : ℕ → PackageSnapshot
two_kilograms shipment_id = object undefined (value (int (pos 2000)))

yard-IsPlanned : IsPlanned yard
unfolding count_where is_active_assignment
yard-IsPlanned = record {
  booked = record {
    drivers = λ resource time. ground arith;
    vehicles = λ resource time. ground arith;
    unique = λ k. ground arith;
  };
  carried_once = λ k. ground arith;
}

-- The second booking overlaps the first and is refused, until the first trip is cancelled.
abbrev shift : List Command
shift =
    book dispatcher 3 (instant 100) (instant 200) 0 schedule nowhere
    ∷ load 70 dispatcher 3 9 nowhere
    ∷ book dispatcher 4 (instant 150) (instant 250) 0 schedule nowhere
    ∷ load 71 dispatcher 4 9 nowhere
    ∷ give_up dispatcher 3 [] 120 nowhere
    ∷ book dispatcher 4 (instant 150) (instant 250) 0 schedule nowhere
    ∷ load 72 dispatcher 4 9 nowhere
    ∷ unload dispatcher 4 9 130 nowhere
    ∷ give_back dispatcher 4 1 nowhere
    ∷ []

execute_all-IsPlanned_example : IsPlanned (execute_all two_kilograms shift yard)
execute_all-IsPlanned_example = execute_all-IsPlanned two_kilograms shift yard yard-IsPlanned

execute_all-Reaches_example :
    Pointwise Reaches yard.trips (execute_all two_kilograms shift yard).trips
execute_all-Reaches_example = execute_all-Reaches two_kilograms shift yard

execute_all-IsScheduled_example : All IsScheduled (execute_all two_kilograms shift yard).trips
execute_all-IsScheduled_example = execute_all-IsScheduled two_kilograms shift yard (tt, (tt, tt))

-- The yard with the parcel on the manifest of the second trip.
abbrev loaded_yard : Store
loaded_yard = record yard {
  trip_transfers =
      record {
        id = 60;
        trip_id = 4;
        warehouse_transfer_id = 9;
        is_active = true;
        assigned_by_id = 50;
        removed_by_id = none;
        removed_at = none;
      }
      ∷ [];
}

loaded_yard-Carried : Carried loaded_yard.trips loaded_yard.trip_transfers
unfolding find_first
loaded_yard-Carried = (refl, tt)

execute_all-Carried_example :
    Carried
      (execute_all two_kilograms shift loaded_yard).trips
      (execute_all two_kilograms shift loaded_yard).trip_transfers
execute_all-Carried_example =
    execute_all-Carried two_kilograms shift loaded_yard loaded_yard-Carried

assign_transfer-Fits_example :
    Ensures
      (λ r. Fits two_kilograms (trip 3) truck r.1)
      (assign_transfer two_kilograms 70 dispatcher 3 9 nowhere yard)
unfolding find_first
assign_transfer-Fits_example =
    assign_transfer-Fits two_kilograms yard 70 dispatcher 3 9 nowhere (trip 3) truck refl refl refl
