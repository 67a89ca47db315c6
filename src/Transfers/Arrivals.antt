-- ===== src/Transfers/Arrivals.antt =====
-- What a reception has checked when it completes a transfer.
use mathlib.Core.Path.{subst}
use project_logictic.Prelude.{
  ℕ, ◌≡◌, Bool, true, false, Option, none, some, inl, inr, Bool-cases, arith, not, ◌||◌, ◌&&◌, ◌⊎◌,
}
use project_logictic.Prelude.Eq.{◌==◌, nat_eq, nat_beq_iff}
use project_logictic.Schema.{
  ShipmentStatus, shipment_status_eq, LineHaulTripStatus, line_haul_trip_status_eq,
  WarehouseTransferStatus as TransferStatus, warehouse_transfer_status_eq,
}
use project_logictic.Store.{
  Store, WarehouseTransfer, LineHaulTrip, LineHaulTripTransfer, ok, Ensures, Ensures-map,
}
use project_logictic.Shipments.Transition.{assert_transfer_receive, assert_one_of}
use project_logictic.Transfers.Flow.{is_enforced, is_legacy_standalone, assert_standalone_receive}
use project_logictic.Transfers.Tables.{
  TransferEntity, TransferTransition, ReceiveTransferInput, find_transfer, active_assignment,
}
use project_logictic.Transfers.Receive.{receive, receive_open, assert_trip_arrived}
use project_logictic.Transfers.Reads.{find_transfer-Reads, active_assignment-Reads}

-- With a trip, the trip has the route of the transfer and has arrived; without one, the transfer was
-- dispatched before the cutover, or the cutover has not come.
may_unload : Option ℕ → ℕ → WarehouseTransfer → Option (LineHaulTripTransfer × LineHaulTrip) → Bool
may_unload cutover now transfer (some (row, trip)) =
    trip.status == LineHaulTripStatus.arrived
    && trip.origin_warehouse_id == transfer.from_warehouse_id
    && trip.destination_warehouse_id == transfer.to_warehouse_id
may_unload cutover now transfer none =
    not (is_enforced cutover now) || is_legacy_standalone cutover transfer.dispatched_at

abbrev pub MayUnload :
    Option ℕ → ℕ → WarehouseTransfer → Option (LineHaulTripTransfer × LineHaulTrip) → Type 0
MayUnload cutover now transfer (some (row, trip)) =
    (trip.status ≡ LineHaulTripStatus.arrived)
    × ((trip.origin_warehouse_id ≡ transfer.from_warehouse_id)
        × (trip.destination_warehouse_id ≡ transfer.to_warehouse_id))
MayUnload cutover now transfer none =
    (is_enforced cutover now ≡ false) ⊎ (is_legacy_standalone cutover transfer.dispatched_at ≡ true)

may_unload-MayUnload :
    (cutover : Option ℕ) (now : ℕ) (transfer : WarehouseTransfer)
    (assignment : Option (LineHaulTripTransfer × LineHaulTrip))
    → may_unload cutover now transfer assignment ≡ true
    → MayUnload cutover now transfer assignment
unfolding may_unload
may_unload-MayUnload cutover now transfer (some (row, trip)) h = (
  ground arith,
  (
    (nat_beq_iff trip.origin_warehouse_id transfer.from_warehouse_id).0 (ground arith),
    (nat_beq_iff trip.destination_warehouse_id transfer.to_warehouse_id).0 (ground arith),
  ),
)
may_unload-MayUnload cutover now transfer none h = ground arith

may_arrive :
    Option ℕ
    → ℕ
    → ReceiveTransferInput
    → TransferEntity
    → Option (LineHaulTripTransfer × LineHaulTrip)
    → Bool
may_arrive cutover now input t assignment =
    t.transfer.status == TransferStatus.in_transit
    && t.transfer.to_warehouse_id == input.warehouse_id
    && t.shipment.status == ShipmentStatus.in_transit
    && t.to_warehouse.is_active
    && may_unload cutover now t.transfer assignment

-- The transfer on the road is received by its destination, which is active, with its parcel.
pub record MayArrive (cutover : Option ℕ) (now : ℕ) (input : ReceiveTransferInput)
    (t : TransferEntity) (assignment : Option (LineHaulTripTransfer × LineHaulTrip)) : Type 0 where
  pub on_the_road : t.transfer.status ≡ TransferStatus.in_transit
  pub to_here : t.transfer.to_warehouse_id ≡ input.warehouse_id
  pub parcel_on_the_road : t.shipment.status ≡ ShipmentStatus.in_transit
  pub here_active : t.to_warehouse.is_active ≡ true
  pub unloaded : MayUnload cutover now t.transfer assignment

may_arrive-MayArrive :
    (cutover : Option ℕ) (now : ℕ) (input : ReceiveTransferInput) (t : TransferEntity)
    (assignment : Option (LineHaulTripTransfer × LineHaulTrip))
    → may_arrive cutover now input t assignment ≡ true
    → MayArrive cutover now input t assignment
unfolding may_arrive
may_arrive-MayArrive cutover now input t assignment h = record {
  on_the_road = ground arith;
  to_here = (nat_beq_iff t.transfer.to_warehouse_id input.warehouse_id).0 (ground arith);
  parcel_on_the_road = ground arith;
  here_active = ground arith;
  unloaded = may_unload-MayUnload cutover now t.transfer assignment (ground arith);
}

module _ (others : Store → Store) (s : Store) (cutover : Option ℕ) (checked_at now : ℕ)
    (input : ReceiveTransferInput) where
  abbrev pub Arrived : TransferTransition × Store → Type 0
  Arrived r =
      r.0.transitioned ≡ true
      → (t : TransferEntity) × ((find_transfer input.transfer_id s ≡ ok (t, s))
          × ((assignment : Option (LineHaulTripTransfer × LineHaulTrip)) × ((active_assignment
                    t.transfer.id s
                  ≡ ok (assignment, s))
                × MayArrive cutover checked_at input t assignment)))

  receive_open-may_arrive :
      (t : TransferEntity) (assignment : Option (LineHaulTripTransfer × LineHaulTrip))
      → active_assignment t.transfer.id s ≡ ok (assignment, s)
      → (t.transfer.to_warehouse_id == input.warehouse_id) ≡ true
      → Ensures
          (λ r. may_arrive cutover checked_at input t assignment ≡ true)
          (receive_open others cutover input checked_at now t s)
  unfolding receive_open assert_trip_arrived assert_standalone_receive assert_transfer_receive
      assert_one_of may_arrive may_unload
  receive_open-may_arrive t none e here = ground arith
  receive_open-may_arrive t (some (row, trip)) e here = ground arith

  receive_open-Arrived :
      (t : TransferEntity)
      → find_transfer input.transfer_id s ≡ ok (t, s)
      → (t.transfer.to_warehouse_id == input.warehouse_id) ≡ true
      → Ensures Arrived (receive_open others cutover input checked_at now t s)
  unfolding receive_open
  receive_open-Arrived t found here = elim (active_assignment-Reads t.transfer.id s) [
    | inl (x, e) ↦ ground arith
    | inr (assignment, e) ↦
        Ensures-map (λ r. may_arrive cutover checked_at input t assignment ≡ true) Arrived
          (receive_open others cutover input checked_at now t s)
          (λ r may transitioned. (
            t,
            (
              found,
              (assignment, (e, may_arrive-MayArrive cutover checked_at input t assignment may)),
            ),
          ))
          (receive_open-may_arrive t assignment e here)
  ]

  receive-Arrived : Ensures Arrived (receive others cutover checked_at now input s)
  unfolding receive
  receive-Arrived = elim (find_transfer-Reads input.transfer_id s) [
    | inl (x, e) ↦ ground arith
    | inr (t, e) ↦ elim (Bool-cases (t.transfer.to_warehouse_id == input.warehouse_id)) [
      | inl here ↦ ground (arith, receive_open-Arrived t e here)
      | inr away ↦ ground arith
    ]
  ]

-- A call of `receive` that completes a transfer has read it in transit, with its parcel in transit,
-- and is made for its destination, which is active; its trip, if it has one, has the route of the
-- transfer and has arrived; without one, the cutover has not come or came after the dispatch.
pub receive-MayArrive :
    (others : Store → Store) (cutover : Option ℕ) (checked_at now : ℕ)
    (input : ReceiveTransferInput) (s s' : Store) (result : TransferTransition)
    → receive others cutover checked_at now input s ≡ ok (result, s')
    → result.transitioned ≡ true
    → (t : TransferEntity) × ((find_transfer input.transfer_id s ≡ ok (t, s))
        × ((assignment : Option (LineHaulTripTransfer × LineHaulTrip)) × ((active_assignment
                  t.transfer.id s
                ≡ ok (assignment, s))
              × MayArrive cutover checked_at input t assignment)))
receive-MayArrive others cutover checked_at now input s s' result e transitioned =
    subst (Ensures (Arrived others s cutover checked_at now input)) e
      (receive-Arrived others s cutover checked_at now input) transitioned
