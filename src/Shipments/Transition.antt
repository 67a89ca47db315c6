-- ===== src/Shipments/Transition.antt =====
-- ShipmentTransitionPolicy (backend/src/modules/assignments/shipment-transition.policy.ts) and
-- CancellationPolicy (backend/src/modules/shipments/cancellation.policy.ts).
use project_logictic.Prelude.{Bool, not, List, [], ◌∷◌}
use project_logictic.Prelude.Eq.{contains}
use project_logictic.Schema.{ShipmentStatus, shipment_status_eq}
use project_logictic.Store.{
  Tx, throw_if, conflict, shipment_transition_invalid, shipment_cannot_cancel,
}

unfoldable pub assert_one_of : ShipmentStatus → List ShipmentStatus → Tx (Unit {0})
assert_one_of status allowed =
    throw_if (not (contains allowed status)) (conflict shipment_transition_invalid)

unfoldable pub assert_confirmable : ShipmentStatus → Tx (Unit {0})
unfolding assert_one_of
assert_confirmable status =
    assert_one_of status (ShipmentStatus.pending ∷ ShipmentStatus.confirmed ∷ [])

unfoldable pub assert_assignable : ShipmentStatus → Tx (Unit {0})
unfolding assert_one_of
assert_assignable status = assert_one_of status (ShipmentStatus.awaiting_pickup_assignment ∷ [])

unfoldable pub assert_reassignable : ShipmentStatus → Tx (Unit {0})
unfolding assert_one_of
assert_reassignable status =
    assert_one_of status (ShipmentStatus.pickup_assigned ∷ ShipmentStatus.pickup_in_progress ∷ [])

unfoldable pub assert_acceptable : ShipmentStatus → Tx (Unit {0})
unfolding assert_one_of
assert_acceptable status = assert_one_of status (ShipmentStatus.pickup_assigned ∷ [])

unfoldable pub assert_rejectable : ShipmentStatus → Tx (Unit {0})
unfolding assert_one_of
assert_rejectable status =
    assert_one_of status (ShipmentStatus.pickup_assigned ∷ ShipmentStatus.pickup_in_progress ∷ [])

unfoldable pub assert_pickupable : ShipmentStatus → Tx (Unit {0})
unfolding assert_one_of
assert_pickupable status = assert_one_of status (ShipmentStatus.pickup_in_progress ∷ [])

unfoldable pub assert_origin_check_in : ShipmentStatus → Tx (Unit {0})
unfolding assert_one_of
assert_origin_check_in status = assert_one_of status (ShipmentStatus.picked_up ∷ [])

unfoldable pub assert_destination_routable : ShipmentStatus → Tx (Unit {0})
unfolding assert_one_of
assert_destination_routable status = assert_one_of status (ShipmentStatus.at_origin_warehouse ∷ [])

unfoldable pub assert_transfer_creatable : ShipmentStatus → Tx (Unit {0})
unfolding assert_one_of
assert_transfer_creatable status =
    assert_one_of status
      (ShipmentStatus.at_origin_warehouse ∷ ShipmentStatus.at_destination_warehouse ∷ [])

unfoldable pub assert_transfer_dispatch : ShipmentStatus → Tx (Unit {0})
unfolding assert_one_of
assert_transfer_dispatch status =
    assert_one_of status
      (ShipmentStatus.at_origin_warehouse ∷ ShipmentStatus.at_destination_warehouse ∷ [])

unfoldable pub assert_transfer_receive : ShipmentStatus → Tx (Unit {0})
unfolding assert_one_of
assert_transfer_receive status = assert_one_of status (ShipmentStatus.in_transit ∷ [])

unfoldable pub assert_ready_for_delivery : ShipmentStatus → Tx (Unit {0})
unfolding assert_one_of
assert_ready_for_delivery status =
    assert_one_of status
      (ShipmentStatus.at_destination_warehouse ∷ ShipmentStatus.at_origin_warehouse ∷ [])

unfoldable pub assert_delivery_assignable : ShipmentStatus → Tx (Unit {0})
unfolding assert_one_of
assert_delivery_assignable status =
    assert_one_of status (ShipmentStatus.awaiting_delivery_assignment ∷ [])

unfoldable pub assert_delivery_startable : ShipmentStatus → Tx (Unit {0})
unfolding assert_one_of
assert_delivery_startable status = assert_one_of status (ShipmentStatus.delivery_assigned ∷ [])

unfoldable pub assert_deliverable : ShipmentStatus → Tx (Unit {0})
unfolding assert_one_of
assert_deliverable status = assert_one_of status (ShipmentStatus.out_for_delivery ∷ [])

unfoldable pub assert_delivery_failing : ShipmentStatus → Tx (Unit {0})
unfolding assert_one_of
assert_delivery_failing status = assert_one_of status (ShipmentStatus.out_for_delivery ∷ [])

unfoldable pub assert_redeliverable : ShipmentStatus → Tx (Unit {0})
unfolding assert_one_of
assert_redeliverable status = assert_one_of status (ShipmentStatus.delivery_failed ∷ [])

unfoldable pub assert_return_requestable : ShipmentStatus → Tx (Unit {0})
unfolding assert_one_of
assert_return_requestable status = assert_one_of status (ShipmentStatus.delivery_failed ∷ [])

unfoldable pub assert_return_startable : ShipmentStatus → Tx (Unit {0})
unfolding assert_one_of
assert_return_startable status = assert_one_of status (ShipmentStatus.return_requested ∷ [])

unfoldable pub assert_return_receivable : ShipmentStatus → Tx (Unit {0})
unfolding assert_one_of
assert_return_receivable status = assert_one_of status (ShipmentStatus.return_in_transit ∷ [])

abbrev pub customer_cancellable_statuses : List ShipmentStatus
customer_cancellable_statuses =
    ShipmentStatus.pending ∷ ShipmentStatus.confirmed ∷ ShipmentStatus.awaiting_pickup_assignment
    ∷ []

unfoldable pub can_customer_cancel : ShipmentStatus → Bool
can_customer_cancel status = contains customer_cancellable_statuses status

unfoldable pub assert_customer_can_cancel : ShipmentStatus → Tx (Unit {0})
assert_customer_can_cancel status =
    throw_if (not (contains customer_cancellable_statuses status)) (conflict shipment_cannot_cancel)
