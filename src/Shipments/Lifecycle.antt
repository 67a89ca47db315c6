-- ===== src/Shipments/Lifecycle.antt =====
-- The commands on a shipment against its life cycle: every command that the policies accept, and
-- where the shipment can still go.
use project_logictic.Prelude.{◌≡◌, Bool, true, false, refl, arith, ◌↔◌, Bool-cases, inl, inr}
use project_logictic.Schema.{ShipmentStatus}
use project_logictic.Store.{Store, Tx, Result, ok, err}
use project_logictic.Shipments.Transition.{
  assert_confirmable, assert_assignable, assert_reassignable, assert_acceptable, assert_rejectable,
  assert_pickupable, assert_origin_check_in, assert_destination_routable, assert_transfer_creatable,
  assert_transfer_dispatch, assert_transfer_receive, assert_ready_for_delivery,
  assert_delivery_assignable, assert_delivery_startable, assert_deliverable,
  assert_delivery_failing, assert_redeliverable, assert_return_requestable, assert_return_startable,
  assert_return_receivable, can_customer_cancel,
}

-- The commands that the policy guards.
pub data Command : Type 0 where
  confirmable assignable reassignable acceptable rejectable pickupable origin_check_in
        destination_routable transfer_creatable transfer_dispatch transfer_receive
        ready_for_delivery delivery_assignable delivery_startable deliverable delivery_failing
        redeliverable return_requestable return_startable return_receivable :
      Command

abbrev pub policy : Command → ShipmentStatus → Tx (Unit {0})
policy confirmable status = assert_confirmable status
policy assignable status = assert_assignable status
policy reassignable status = assert_reassignable status
policy acceptable status = assert_acceptable status
policy rejectable status = assert_rejectable status
policy pickupable status = assert_pickupable status
policy origin_check_in status = assert_origin_check_in status
policy destination_routable status = assert_destination_routable status
policy transfer_creatable status = assert_transfer_creatable status
policy transfer_dispatch status = assert_transfer_dispatch status
policy transfer_receive status = assert_transfer_receive status
policy ready_for_delivery status = assert_ready_for_delivery status
policy delivery_assignable status = assert_delivery_assignable status
policy delivery_startable status = assert_delivery_startable status
policy deliverable status = assert_deliverable status
policy delivery_failing status = assert_delivery_failing status
policy redeliverable status = assert_redeliverable status
policy return_requestable status = assert_return_requestable status
policy return_startable status = assert_return_startable status
policy return_receivable status = assert_return_receivable status

abbrev pub accepts : Result (Unit {0} × Store) → Bool
accepts (ok r) = true
accepts (err e) = false

-- Where no command is left: delivered, returned, cancelled, damaged or lost.
abbrev pub is_terminal : ShipmentStatus → Bool
is_terminal ShipmentStatus.delivered = true
is_terminal ShipmentStatus.returned = true
is_terminal ShipmentStatus.cancelled = true
is_terminal ShipmentStatus.damaged = true
is_terminal ShipmentStatus.lost = true
is_terminal _ = false

-- A command that each status still takes, where it takes one.
abbrev pub next_command : ShipmentStatus → Command
next_command ShipmentStatus.awaiting_pickup_assignment = assignable
next_command ShipmentStatus.pickup_assigned = acceptable
next_command ShipmentStatus.pickup_in_progress = pickupable
next_command ShipmentStatus.picked_up = origin_check_in
next_command ShipmentStatus.at_origin_warehouse = destination_routable
next_command ShipmentStatus.in_transit = transfer_receive
next_command ShipmentStatus.at_destination_warehouse = transfer_dispatch
next_command ShipmentStatus.awaiting_delivery_assignment = delivery_assignable
next_command ShipmentStatus.delivery_assigned = delivery_startable
next_command ShipmentStatus.out_for_delivery = deliverable
next_command ShipmentStatus.delivery_failed = redeliverable
next_command ShipmentStatus.return_requested = return_startable
next_command ShipmentStatus.return_in_transit = return_receivable
next_command _ = confirmable

terminal-refuses :
    (s : Store) (c : Command) (status : ShipmentStatus)
    → is_terminal status ≡ true
    → accepts (policy c status s) ≡ false
unfolding assert_confirmable assert_assignable assert_reassignable assert_acceptable
    assert_rejectable assert_pickupable assert_origin_check_in assert_destination_routable
    assert_transfer_creatable assert_transfer_dispatch assert_transfer_receive
    assert_ready_for_delivery assert_delivery_assignable assert_delivery_startable
    assert_deliverable assert_delivery_failing assert_redeliverable assert_return_requestable
    assert_return_startable assert_return_receivable
terminal-refuses s confirmable status ends = ground arith
terminal-refuses s assignable status ends = ground arith
terminal-refuses s reassignable status ends = ground arith
terminal-refuses s acceptable status ends = ground arith
terminal-refuses s rejectable status ends = ground arith
terminal-refuses s pickupable status ends = ground arith
terminal-refuses s origin_check_in status ends = ground arith
terminal-refuses s destination_routable status ends = ground arith
terminal-refuses s transfer_creatable status ends = ground arith
terminal-refuses s transfer_dispatch status ends = ground arith
terminal-refuses s transfer_receive status ends = ground arith
terminal-refuses s ready_for_delivery status ends = ground arith
terminal-refuses s delivery_assignable status ends = ground arith
terminal-refuses s delivery_startable status ends = ground arith
terminal-refuses s deliverable status ends = ground arith
terminal-refuses s delivery_failing status ends = ground arith
terminal-refuses s redeliverable status ends = ground arith
terminal-refuses s return_requestable status ends = ground arith
terminal-refuses s return_startable status ends = ground arith
terminal-refuses s return_receivable status ends = ground arith

next-accepted :
    (s : Store) (status : ShipmentStatus)
    → is_terminal status ≡ false
    → accepts (policy (next_command status) status s) ≡ true
unfolding assert_confirmable assert_assignable assert_reassignable assert_acceptable
    assert_rejectable assert_pickupable assert_origin_check_in assert_destination_routable
    assert_transfer_creatable assert_transfer_dispatch assert_transfer_receive
    assert_ready_for_delivery assert_delivery_assignable assert_delivery_startable
    assert_deliverable assert_delivery_failing assert_redeliverable assert_return_requestable
    assert_return_startable assert_return_receivable
next-accepted s ShipmentStatus.pending goes_on = refl
next-accepted s ShipmentStatus.confirmed goes_on = refl
next-accepted s ShipmentStatus.awaiting_pickup_assignment goes_on = refl
next-accepted s ShipmentStatus.pickup_assigned goes_on = refl
next-accepted s ShipmentStatus.pickup_in_progress goes_on = refl
next-accepted s ShipmentStatus.picked_up goes_on = refl
next-accepted s ShipmentStatus.at_origin_warehouse goes_on = refl
next-accepted s ShipmentStatus.in_transit goes_on = refl
next-accepted s ShipmentStatus.at_destination_warehouse goes_on = refl
next-accepted s ShipmentStatus.awaiting_delivery_assignment goes_on = refl
next-accepted s ShipmentStatus.delivery_assigned goes_on = refl
next-accepted s ShipmentStatus.out_for_delivery goes_on = refl
next-accepted s ShipmentStatus.delivered goes_on = ground arith
next-accepted s ShipmentStatus.delivery_failed goes_on = refl
next-accepted s ShipmentStatus.return_requested goes_on = refl
next-accepted s ShipmentStatus.return_in_transit goes_on = refl
next-accepted s ShipmentStatus.returned goes_on = ground arith
next-accepted s ShipmentStatus.cancelled goes_on = ground arith
next-accepted s ShipmentStatus.damaged goes_on = ground arith
next-accepted s ShipmentStatus.lost goes_on = ground arith

-- Delivered, returned, cancelled, damaged and lost are exactly the statuses in which every command
-- is refused.
pub policy-IsTerminal :
    (s : Store) (status : ShipmentStatus)
    → (is_terminal status ≡ true) ↔ ((c : Command) → accepts (policy c status s) ≡ false)
policy-IsTerminal s status = (
  (λ ends c. terminal-refuses s c status ends),
  λ refused. elim (Bool-cases (is_terminal status)) [
    | inl ends ↦ ends
    | inr goes_on ↦ ground (arith, next-accepted s status goes_on, refused (next_command status))
  ],
)

-- Before the pickup: the commands after which a driver is on the way or has the parcel are refused.
abbrev pub is_before_pickup : Command → Bool
is_before_pickup confirmable = true
is_before_pickup assignable = true
is_before_pickup _ = false

-- While the customer can cancel, the shipment can be confirmed or given its first driver, and every
-- other command is refused.
pub can_customer_cancel-policy :
    (s : Store) (c : Command) (status : ShipmentStatus)
    → can_customer_cancel status ≡ true
    → accepts (policy c status s) ≡ true
    → is_before_pickup c ≡ true
unfolding can_customer_cancel assert_confirmable assert_assignable assert_reassignable
    assert_acceptable assert_rejectable assert_pickupable assert_origin_check_in
    assert_destination_routable assert_transfer_creatable assert_transfer_dispatch
    assert_transfer_receive assert_ready_for_delivery assert_delivery_assignable
    assert_delivery_startable assert_deliverable assert_delivery_failing assert_redeliverable
    assert_return_requestable assert_return_startable assert_return_receivable
can_customer_cancel-policy s confirmable status cancellable accepted = ground arith
can_customer_cancel-policy s assignable status cancellable accepted = ground arith
can_customer_cancel-policy s reassignable status cancellable accepted = ground arith
can_customer_cancel-policy s acceptable status cancellable accepted = ground arith
can_customer_cancel-policy s rejectable status cancellable accepted = ground arith
can_customer_cancel-policy s pickupable status cancellable accepted = ground arith
can_customer_cancel-policy s origin_check_in status cancellable accepted = ground arith
can_customer_cancel-policy s destination_routable status cancellable accepted = ground arith
can_customer_cancel-policy s transfer_creatable status cancellable accepted = ground arith
can_customer_cancel-policy s transfer_dispatch status cancellable accepted = ground arith
can_customer_cancel-policy s transfer_receive status cancellable accepted = ground arith
can_customer_cancel-policy s ready_for_delivery status cancellable accepted = ground arith
can_customer_cancel-policy s delivery_assignable status cancellable accepted = ground arith
can_customer_cancel-policy s delivery_startable status cancellable accepted = ground arith
can_customer_cancel-policy s deliverable status cancellable accepted = ground arith
can_customer_cancel-policy s delivery_failing status cancellable accepted = ground arith
can_customer_cancel-policy s redeliverable status cancellable accepted = ground arith
can_customer_cancel-policy s return_requestable status cancellable accepted = ground arith
can_customer_cancel-policy s return_startable status cancellable accepted = ground arith
can_customer_cancel-policy s return_receivable status cancellable accepted = ground arith
