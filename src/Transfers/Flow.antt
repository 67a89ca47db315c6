-- ===== src/Transfers/Flow.antt =====
-- WarehouseTransferFlowPolicy (backend/src/modules/warehouses/warehouse-transfer-flow.policy.ts): from the
-- cutover on, a transfer needs a line-haul trip. The cutover, which comes from the configuration,
-- is an argument, and so is the time.
use project_logictic.Prelude.{
  ℕ, Bool, false, Option, none, some, not, ◌&&◌, ◌||◌, ltb, leb, is_none,
}
use project_logictic.Prelude.Eq.{◌==◌}
use project_logictic.Schema.{
  LineHaulTripStatus, line_haul_trip_status_eq, WarehouseTransferStatus as TransferStatus,
  warehouse_transfer_status_eq,
}
use project_logictic.Store.{
  WarehouseTransfer, Tx, throw_if, conflict, line_haul_trip_required,
  line_haul_legacy_receive_not_eligible,
}

unfoldable pub is_enforced : Option ℕ → ℕ → Bool
is_enforced none now = false
is_enforced (some cutover) now = leb cutover now

unfoldable pub is_legacy_standalone : Option ℕ → Option ℕ → Bool
is_legacy_standalone (some cutover) (some dispatched_at) = ltb dispatched_at cutover
is_legacy_standalone _ _ = false

unfoldable pub assert_standalone_dispatch : Option ℕ → ℕ → Tx (Unit {0})
unfolding is_enforced
assert_standalone_dispatch cutover now =
    throw_if (is_enforced cutover now) (conflict line_haul_trip_required)

unfoldable pub assert_standalone_receive : Option ℕ → ℕ → Option ℕ → Tx (Unit {0})
unfolding is_enforced is_legacy_standalone
assert_standalone_receive cutover now dispatched_at =
    throw_if (is_enforced cutover now && not (is_legacy_standalone cutover dispatched_at))
      (conflict line_haul_legacy_receive_not_eligible)

-- `canStandaloneDispatch` and `canReceive` of `describe`, for the status of the trip, if any.
unfoldable pub can_standalone_dispatch :
    Option ℕ → ℕ → WarehouseTransfer → Option LineHaulTripStatus → Bool
unfolding is_enforced
can_standalone_dispatch cutover now transfer trip =
    transfer.status == TransferStatus.pending && is_none trip && not (is_enforced cutover now)

unfoldable pub can_receive : Option ℕ → ℕ → WarehouseTransfer → Option LineHaulTripStatus → Bool
unfolding is_enforced is_legacy_standalone
can_receive cutover now transfer (some trip) =
    transfer.status == TransferStatus.in_transit && trip == LineHaulTripStatus.arrived
can_receive cutover now transfer none =
    transfer.status == TransferStatus.in_transit
    && (not (is_enforced cutover now) || is_legacy_standalone cutover transfer.dispatched_at)
