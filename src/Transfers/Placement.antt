-- ===== src/Transfers/Placement.antt =====
-- Where shipments and transfers are, whatever other transactions commit in the middle of a call: a
-- shipment on the road is in no warehouse, and a transfer has the stamps of its status.
use mathlib.Core.Path.{subst}
use project_logictic.Prelude.{
  ℕ, ◌≡◌, refl, true, Option, none, some, is_some, inl, inr, arith, All, update_many-All,
}
use project_logictic.Prelude.Eq.{nat_eq}
use project_logictic.Schema.{ShipmentStatus, WarehouseTransferStatus as TransferStatus}
use project_logictic.Store.{
  Store, Shipment, WarehouseTransfer, Ensures, LineHaulTrip, LineHaulTripTransfer,
}
use project_logictic.Transfers.Flow.{assert_standalone_dispatch, assert_standalone_receive}
use project_logictic.Shipments.Transition.{
  assert_transfer_dispatch, assert_transfer_receive, assert_one_of,
}
use project_logictic.Transfers.Tables.{
  TransferEntity, DispatchTransferInput, ReceiveTransferInput, update_transfers, update_shipments,
  track,
}
use project_logictic.Transfers.Dispatch.{
  assert_manifest_owner, assert_dispatchable_transfer, assert_standalone, dispatch_where,
  dispatch_data, leave_where, leave_data, dispatch_now, dispatch_pending, dispatch,
}
use project_logictic.Transfers.Receive.{
  assert_trip_arrived, receive_where, receive_data, arrive_where, arrive_data, create_idempotent,
  receive_now, receive_open, receive,
}
use project_logictic.Transfers.Reads.{find_transfer-Reads, active_assignment-Reads}

abbrev pub AtStatus : ShipmentStatus → Option ℕ → Type 0
AtStatus ShipmentStatus.in_transit place = place ≡ none
AtStatus ShipmentStatus.at_origin_warehouse place = is_some place ≡ true
AtStatus ShipmentStatus.at_destination_warehouse place = is_some place ≡ true
AtStatus _ place = Unit

abbrev pub IsPlaced : Shipment → Type 0
IsPlaced shipment = AtStatus shipment.status shipment.current_warehouse_id

abbrev pub StampsOf : TransferStatus → WarehouseTransfer → Type 0
StampsOf TransferStatus.pending t = (t.dispatched_at ≡ none) × (t.received_at ≡ none)
StampsOf TransferStatus.in_transit t =
    (is_some t.dispatched_at ≡ true)
    × ((is_some t.dispatched_by_id ≡ true) × (t.received_at ≡ none))
StampsOf TransferStatus.completed t =
    (is_some t.dispatched_at ≡ true)
    × ((is_some t.received_at ≡ true) × (is_some t.received_by_id ≡ true))
StampsOf _ t = Unit

abbrev pub IsStamped : WarehouseTransfer → Type 0
IsStamped t = StampsOf t.status t

abbrev pub StoreIsPlaced : Store → Type 0
StoreIsPlaced s = All IsPlaced s.shipments × All IsStamped s.transfers

dispatch_where-pending :
    (id : ℕ) (t : WarehouseTransfer)
    → dispatch_where id t ≡ true
    → t.status ≡ TransferStatus.pending
unfolding dispatch_where
dispatch_where-pending id t found = ground arith

receive_where-in_transit :
    (id : ℕ) (t : WarehouseTransfer)
    → receive_where id t ≡ true
    → t.status ≡ TransferStatus.in_transit
unfolding receive_where
receive_where-in_transit id t found = ground arith

dispatch_data-IsStamped :
    (id actor_id now : ℕ) (t : WarehouseTransfer)
    → dispatch_where id t ≡ true
    → IsStamped t
    → IsStamped (dispatch_data actor_id now t)
unfolding dispatch_data
dispatch_data-IsStamped id actor_id now t found stamped =
    let before = subst (λ status. StampsOf status t) (dispatch_where-pending id t found) stamped in
    (refl, (refl, before.1))

receive_data-IsStamped :
    (id actor_id now : ℕ) (t : WarehouseTransfer)
    → receive_where id t ≡ true
    → IsStamped t
    → IsStamped (receive_data actor_id now t)
unfolding receive_data
receive_data-IsStamped id actor_id now t found stamped =
    let before =
      subst (λ status. StampsOf status t) (receive_where-in_transit id t found) stamped in
    (before.0, (refl, refl))

module _ (others : Store → Store) (s : Store) (before : StoreIsPlaced s)
    (during : StoreIsPlaced (others s)) where
  dispatch_now-keeps :
      (cutover : Option ℕ) (input : DispatchTransferInput) (t : TransferEntity) (now : ℕ)
      → Ensures (λ r. StoreIsPlaced r.1) (dispatch_now others cutover input t now s)
  unfolding dispatch_now update_transfers update_shipments track leave_data
  dispatch_now-keeps cutover input t now = ground (
    arith,
    update_many-All IsStamped (dispatch_where t.transfer.id) (dispatch_data input.actor.id now)
        (others s).transfers (dispatch_data-IsStamped t.transfer.id input.actor.id now) during.1,
    update_many-All IsPlaced (leave_where t input.warehouse_id) leave_data (others s).shipments
        (λ x h p. refl) during.0,
  )

  receive_now-keeps :
      (cutover : Option ℕ) (input : ReceiveTransferInput) (t : TransferEntity)
      (assignment : Option (LineHaulTripTransfer × LineHaulTrip)) (now : ℕ)
      → Ensures (λ r. StoreIsPlaced r.1) (receive_now others cutover input t assignment now s)
  unfolding receive_now update_transfers update_shipments track arrive_data create_idempotent
  receive_now-keeps cutover input t assignment now = ground (
    arith,
    update_many-All IsStamped (receive_where t.transfer.id) (receive_data input.actor.id now)
        (others s).transfers (receive_data-IsStamped t.transfer.id input.actor.id now) during.1,
    update_many-All IsPlaced (arrive_where t.shipment) (arrive_data input.warehouse_id)
        (others s).shipments (λ x h p. refl) during.0,
  )

  dispatch_pending-keeps :
      (cutover : Option ℕ) (input : DispatchTransferInput) (now : ℕ) (t : TransferEntity)
      → Ensures (λ r. StoreIsPlaced r.1) (dispatch_pending others cutover input now t s)
  unfolding dispatch_pending assert_dispatchable_transfer assert_standalone
      assert_standalone_dispatch assert_transfer_dispatch assert_one_of assert_manifest_owner
  dispatch_pending-keeps cutover input now t = elim (active_assignment-Reads t.transfer.id s) [
    | inl (x, e) ↦ ground arith
    | inr (none, e) ↦ ground (arith, dispatch_now-keeps cutover input t now)
    | inr (some (row, trip), e) ↦ ground (arith, dispatch_now-keeps cutover input t now)
  ]

  -- Where the placement rules hold before the call and after what others commit in its middle, a
  -- dispatch that returns leaves them: a shipment in transit is in no warehouse, one at its origin or
  -- destination is in one, and each transfer has the stamps of its status.
  pub dispatch-keeps :
      (cutover : Option ℕ) (now : ℕ) (input : DispatchTransferInput)
      → Ensures (λ r. StoreIsPlaced r.1) (dispatch others cutover now input s)
  unfolding dispatch
  dispatch-keeps cutover now input = elim (find_transfer-Reads input.transfer_id s) [
    | inl (x, e) ↦ ground arith
    | inr (t, e) ↦ ground (arith, dispatch_pending-keeps cutover input now t)
  ]

  receive_open-keeps :
      (cutover : Option ℕ) (input : ReceiveTransferInput) (checked_at now : ℕ) (t : TransferEntity)
      → Ensures (λ r. StoreIsPlaced r.1) (receive_open others cutover input checked_at now t s)
  unfolding receive_open assert_trip_arrived assert_standalone_receive assert_transfer_receive
      assert_one_of
  receive_open-keeps cutover input checked_at now t =
      elim (active_assignment-Reads t.transfer.id s) [
        | inl (x, e) ↦ ground arith
        | inr (none, e) ↦ ground (arith, receive_now-keeps cutover input t none now)
        | inr (some (row, trip), e) ↦
            ground (arith, receive_now-keeps cutover input t (some (row, trip)) now)
      ]

  -- Where the placement rules hold before the call and after what others commit in its middle, a
  -- reception that returns leaves them.
  pub receive-keeps :
      (cutover : Option ℕ) (checked_at now : ℕ) (input : ReceiveTransferInput)
      → Ensures (λ r. StoreIsPlaced r.1) (receive others cutover checked_at now input s)
  unfolding receive
  receive-keeps cutover checked_at now input = elim (find_transfer-Reads input.transfer_id s) [
    | inl (x, e) ↦ ground arith
    | inr (t, e) ↦ ground (arith, receive_open-keeps cutover input checked_at now t)
  ]
