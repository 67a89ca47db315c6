-- ===== src/Transfers/Guards.antt =====
-- What a call has checked when a transfer leaves its origin or is received.
use mathlib.Core.Path.{subst}
use project_logictic.Prelude.{
  ℕ, ◌≡◌, Bool, true, false, Option, none, some, is_some, inl, inr, Bool-cases, arith, not, ◌||◌,
  ◌&&◌, ◌⊎◌,
}
use project_logictic.Prelude.Eq.{◌==◌, nat_eq, option_eq, nat_beq_iff}
use project_logictic.Schema.{
  WarehouseTransferStatus as TransferStatus, warehouse_transfer_status_eq,
}
use project_logictic.Store.{Store, ok, Ensures, Ensures-map}
use project_logictic.Transfers.Flow.{is_enforced, assert_standalone_dispatch}
use project_logictic.Shipments.Transition.{assert_transfer_dispatch, assert_one_of}
use project_logictic.Transfers.Tables.{
  TransferEntity, TransferTransition, DispatchTransferInput, find_transfer,
}
use project_logictic.Transfers.Dispatch.{
  assert_manifest_owner, assert_dispatchable_transfer, assert_standalone, dispatch_pending,
  dispatch,
}
use project_logictic.Transfers.Reads.{find_transfer-Reads, active_assignment-Reads}

-- The pending transfer is dispatched by its origin, where the parcel is, to the destination that
-- the parcel is sorted for; after the cutover only with a trip.
pub record MayLeave (cutover : Option ℕ) (now : ℕ) (input : DispatchTransferInput)
    (t : TransferEntity) : Type 0 where
  pub pending : t.transfer.status ≡ TransferStatus.pending
  pub from_here : t.transfer.from_warehouse_id ≡ input.warehouse_id
  pub parcel_here : t.shipment.current_warehouse_id ≡ some input.warehouse_id
  pub sorted : t.shipment.destination_warehouse_id ≡ some t.transfer.to_warehouse_id
  pub origin_active : t.from_warehouse.is_active ≡ true
  pub destination_active : t.to_warehouse.is_active ≡ true
  pub with_trip : (is_enforced cutover now ≡ false) ⊎ (is_some input.line_haul_trip_id ≡ true)

-- The same as a test.
may_leave : Option ℕ → ℕ → DispatchTransferInput → TransferEntity → Bool
may_leave cutover now input t =
    t.transfer.status == TransferStatus.pending
    && t.transfer.from_warehouse_id == input.warehouse_id
    && t.shipment.current_warehouse_id == some input.warehouse_id
    && t.shipment.destination_warehouse_id == some t.transfer.to_warehouse_id
    && t.from_warehouse.is_active
    && t.to_warehouse.is_active
    && (not (is_enforced cutover now) || is_some input.line_haul_trip_id)

may_leave-MayLeave :
    (cutover : Option ℕ) (now : ℕ) (input : DispatchTransferInput) (t : TransferEntity)
    → may_leave cutover now input t ≡ true
    → MayLeave cutover now input t
unfolding may_leave
may_leave-MayLeave cutover now input t h = record {
  pending = ground arith;
  from_here = (nat_beq_iff t.transfer.from_warehouse_id input.warehouse_id).0 (ground arith);
  parcel_here =
      (option_eq.same_iff t.shipment.current_warehouse_id (some input.warehouse_id)).0
        (ground arith);
  sorted =
      (option_eq.same_iff t.shipment.destination_warehouse_id (some t.transfer.to_warehouse_id)).0
        (ground arith);
  origin_active = ground arith;
  destination_active = ground arith;
  with_trip = ground arith;
}

module _ (others : Store → Store) (s : Store) where
  dispatch_pending-may_leave :
      (cutover : Option ℕ) (now : ℕ) (input : DispatchTransferInput) (t : TransferEntity)
      → (t.transfer.from_warehouse_id == input.warehouse_id) ≡ true
      → Ensures
          (λ r. may_leave cutover now input t ≡ true)
          (dispatch_pending others cutover input now t s)
  unfolding dispatch_pending assert_dispatchable_transfer assert_standalone
      assert_standalone_dispatch assert_transfer_dispatch assert_one_of assert_manifest_owner
      may_leave
  dispatch_pending-may_leave cutover now input t here =
      elim (active_assignment-Reads t.transfer.id s) [
        | inl (x, e) ↦ ground arith
        | inr (none, e) ↦ ground arith
        | inr (some (row, trip), e) ↦ ground arith
      ]

  abbrev pub Left : Option ℕ → ℕ → DispatchTransferInput → TransferTransition × Store → Type 0
  Left cutover now input r =
      r.0.transitioned ≡ true
      → (t : TransferEntity) × ((find_transfer input.transfer_id s ≡ ok (t, s))
          × MayLeave cutover now input t)

  dispatch_pending-Left :
      (cutover : Option ℕ) (now : ℕ) (input : DispatchTransferInput) (t : TransferEntity)
      → find_transfer input.transfer_id s ≡ ok (t, s)
      → (t.transfer.from_warehouse_id == input.warehouse_id) ≡ true
      → Ensures (Left cutover now input) (dispatch_pending others cutover input now t s)
  dispatch_pending-Left cutover now input t e here =
      Ensures-map (λ r. may_leave cutover now input t ≡ true) (Left cutover now input)
        (dispatch_pending others cutover input now t s)
        (λ r may transitioned. (t, (e, may_leave-MayLeave cutover now input t may)))
        (dispatch_pending-may_leave cutover now input t here)

  dispatch-Left :
      (cutover : Option ℕ) (now : ℕ) (input : DispatchTransferInput)
      → Ensures (Left cutover now input) (dispatch others cutover now input s)
  unfolding dispatch
  dispatch-Left cutover now input = elim (find_transfer-Reads input.transfer_id s) [
    | inl (x, e) ↦ ground arith
    | inr (t, e) ↦ elim (Bool-cases (t.transfer.from_warehouse_id == input.warehouse_id)) [
      | inl here ↦ ground (arith, dispatch_pending-Left cutover now input t e here)
      | inr away ↦ ground arith
    ]
  ]

-- A call of `dispatch` that moves a transfer has read it pending, is made for its origin, where
-- the parcel is, and the parcel is sorted for its destination; both warehouses are active; and
-- from the cutover on the call comes from a line-haul trip.
pub dispatch-MayLeave :
    (others : Store → Store) (cutover : Option ℕ) (now : ℕ) (input : DispatchTransferInput)
    (s s' : Store) (result : TransferTransition)
    → dispatch others cutover now input s ≡ ok (result, s')
    → result.transitioned ≡ true
    → (t : TransferEntity) × ((find_transfer input.transfer_id s ≡ ok (t, s))
        × MayLeave cutover now input t)
dispatch-MayLeave others cutover now input s s' result e transitioned =
    subst (Ensures (Left others s cutover now input)) e (dispatch-Left others s cutover now input)
      transitioned
