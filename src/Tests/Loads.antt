-- ===== src/Tests/Loads.antt =====
-- Manifests and the policy of shipments at concrete inputs.
use project_logictic.Prelude.{◌≡◌, ◌≤◌, ◌↔◌, refl, true, false, List, [], ◌∷◌, All, sum_by}
use project_logictic.Prelude.Int.{pos}
use project_logictic.Schema.{ShipmentStatus}
use project_logictic.Store.{empty_store, ok, int}
use project_logictic.Fees.Checks.{max_safe_integer}
use project_logictic.Shipments.Lifecycle.{
  Command, assignable, policy, accepts, is_terminal, is_before_pickup, policy-IsTerminal,
  can_customer_cancel-policy,
}
use project_logictic.Shipments.Transition.{assert_assignable, can_customer_cancel}
use project_logictic.LineHaul.Capacity.{
  undefined, value, object, ManifestAssignment, resolve_shipment_load_weight_grams,
  calculate_manifest_weight_grams,
}
use project_logictic.LineHaul.Manifest.{load, IsReadable, calculate_manifest-sum}

-- 1.2 kg, and a parcel that has left the manifest.
abbrev manifest : List ManifestAssignment
manifest =
    record { is_active = true; package_snapshot = object undefined (value (int (pos 1200))) }
    ∷ record { is_active = false; package_snapshot = object undefined undefined }
    ∷ []

manifest_weight : calculate_manifest_weight_grams manifest ≡ ok 1200
unfolding calculate_manifest_weight_grams resolve_shipment_load_weight_grams
manifest_weight = refl

calculate_manifest-sum_example :
    (1200 ≡ sum_by load manifest) × ((1200 ≤ max_safe_integer) × All IsReadable manifest)
calculate_manifest-sum_example = calculate_manifest-sum manifest manifest_weight

cancellable : can_customer_cancel ShipmentStatus.awaiting_pickup_assignment ≡ true
unfolding can_customer_cancel
cancellable = refl

assigns : accepts (policy assignable ShipmentStatus.awaiting_pickup_assignment empty_store) ≡ true
unfolding assert_assignable
assigns = refl

policy-IsTerminal_example :
    (is_terminal ShipmentStatus.delivered ≡ true)
    ↔ ((c : Command) → accepts (policy c ShipmentStatus.delivered empty_store) ≡ false)
policy-IsTerminal_example = policy-IsTerminal empty_store ShipmentStatus.delivered

can_customer_cancel-policy_example : is_before_pickup assignable ≡ true
can_customer_cancel-policy_example =
    can_customer_cancel-policy empty_store assignable ShipmentStatus.awaiting_pickup_assignment
      cancellable assigns
