-- ===== src/Store/Exceptions.antt =====
-- The exceptions that the services throw: an HTTP class and the `code` of the response.
pub data Code : Type 0 where
  shipping_fee_amount_invalid shipping_fee_amount_mismatch shipping_fee_snapshot_invalid : Code
  shipping_fee_actor_forbidden shipping_fee_admin_required shipping_fee_not_due : Code
  shipping_fee_payment_pending shipping_fee_already_paid shipping_fee_state_invalid : Code
  shipping_fee_collection_conflict shipping_fee_cancellation_conflict : Code
  shipping_fee_collection_not_found shipping_fee_transaction_not_found : Code
  shipping_fee_remittance_conflict shipping_fee_dispute_active : Code
  shipping_fee_dispute_inconsistent shipping_fee_dispute_not_active : Code
  shipping_fee_concurrent_modification shipping_fee_not_collected : Code
  shipping_fee_dispute_reason_required shipping_fee_resolution_note_required : Code
  cod_role_forbidden cod_transaction_not_found cod_amount_mismatch cod_retry_conflict : Code
  cod_state_invalid cod_handover_pending cod_reason_required cod_reference_required : Code
  cod_reference_mismatch cod_concurrent_modification : Code
  shipping_fee_payment_customer_required shipping_fee_payment_not_found : Code
  shipping_fee_payment_provider_unavailable shipping_fee_payment_idempotency_conflict : Code
  shipping_fee_payment_not_available shipping_fee_payment_already_pending : Code
  shipping_fee_payment_not_due payment_provider_disabled shipping_fee_payment_failed : Code
  shipping_fee_payment_provider_reference_conflict shipping_fee_payment_webhook_invalid : Code
  shipping_fee_payment_webhook_replay_conflict shipping_fee_payment_reference_mismatch : Code
  shipping_fee_payment_amount_mismatch shipping_fee_payment_terminal_conflict : Code
  shipping_fee_payment_state_conflict shipping_fee_payment_ownership_invalid : Code
  shipping_fee_payment_concurrent_modification : Code
  pricing_total_fee_invalid pricing_config_unavailable pricing_config_conflict : Code
  shipment_transition_invalid shipment_cannot_cancel : Code
  line_haul_shipment_weight_invalid line_haul_manifest_weight_invalid : Code
  line_haul_vehicle_capacity_required line_haul_vehicle_capacity_exceeded : Code
  line_haul_same_warehouse line_haul_driver_inactive line_haul_capability_required : Code
  line_haul_vehicle_not_available line_haul_trip_not_configurable : Code
  line_haul_trip_not_schedulable line_haul_schedule_invalid line_haul_schedule_range_invalid : Code
  line_haul_schedule_required line_haul_trip_not_prepareable line_haul_trip_not_dispatchable : Code
  line_haul_trip_not_arrivable line_haul_trip_not_cancellable : Code
  line_haul_transfer_route_mismatch line_haul_trip_required : Code
  line_haul_legacy_receive_not_eligible line_haul_manifest_ownership_invalid : Code
  line_haul_warehouse_inactive line_haul_trip_not_arrived : Code
  warehouse_transfer_not_pending warehouse_transfer_assigned_to_trip : Code
  shipment_not_at_origin_warehouse transfer_destination_mismatch transfer_origin_mismatch : Code
  transfer_not_found warehouse_not_found invalid_transfer_status : Code
  transfer_concurrent_modification shipment_concurrent_modification : Code
  line_haul_trip_not_found line_haul_trip_concurrent_modification : Code
  line_haul_trip_already_scheduled line_haul_trip_not_scheduled : Code
  line_haul_driver_schedule_conflict line_haul_vehicle_schedule_conflict : Code
  warehouse_transfer_active_trip line_haul_transfer_assignment_not_found : Code
  line_haul_transfer_concurrent_modification warehouse_transfer_not_found : Code
  driver_suspended driver_not_available driver_capability_required : Code
  driver_operating_warehouse_required driver_outside_operating_area : Code
  driver_current_location_required : Code

pub data Exception : Type 0 where
  bad_request forbidden not_found conflict service_unavailable : Code → Exception
  record_not_found : Exception  -- Prisma's P2025
  unique_violation : Exception  -- Prisma's P2002
