-- ===== src/Tests/Payments.antt =====
-- Online payments at concrete inputs.
use project_logictic.Prelude.{◌+◌, ◌≤◌, true, none, some, List, [], ◌∷◌, count_where, arith}
use project_logictic.Prelude.Int.{pos}
use project_logictic.Schema.{
  UserRole, ShipmentStatus, ShippingFeePayer, ShippingFeeTransactionStatus as FeeStatus,
}
use project_logictic.Store.{
  Store, empty_store, Shipment, ShippingFeeTransaction, Actor, ClientContext, Ensures,
}
use project_logictic.Payments.Checks.{Gateway, is_active}
use project_logictic.Payments.Create.{is_active_of}
use project_logictic.Payments.Webhook.{VerifiedPaymentWebhook, handle_webhook}
use project_logictic.Payments.Again.{Repeats, handle_webhook-Repeats}
use project_logictic.Payments.Balance.{IsBalanced, is_success_of}
use project_logictic.Payments.Service.{
  Command, create, accept, webhook, execute_all, execute_all-IsBalanced, execute_all-one_attempt,
}

abbrev nowhere : ClientContext
nowhere = record { ip_address = none; user_agent = none }

abbrev customer : Actor
customer = record { id = 10; role = UserRole.customer }

abbrev parcel : Shipment
parcel = record {
  id = 7;
  customer_id = 10;
  cod_amount = pos 0;
  total_fee = pos 25000;
  shipping_fee_payer = ShippingFeePayer.sender;
  status = ShipmentStatus.pickup_in_progress;
  version = 0;
  origin_warehouse_id = none;
  destination_warehouse_id = none;
  current_warehouse_id = none;
  return_warehouse_id = none;
}

abbrev pending_fee : ShippingFeeTransaction
pending_fee = record {
  id = 1;
  shipment_id = 7;
  payer = ShippingFeePayer.sender;
  expected_amount = pos 25000;
  collected_amount = none;
  remitted_amount = none;
  paid_amount = none;
  status = FeeStatus.pending;
  collected_by_driver_id = none;
  remitted_by_driver_id = none;
  settled_by_id = none;
  collected_at = none;
  remitted_at = none;
  settled_at = none;
  paid_at = none;
  cancelled_at = none;
}

abbrev fee_store : Store
fee_store = record empty_store { shipments = parcel ∷ []; fees = pending_fee ∷ [] }

fee_store-IsBalanced : IsBalanced fee_store
unfolding count_where is_active_of is_active
fee_store-IsBalanced = record {
  waiting = λ k. ground arith;
  paid = λ k. ground arith;
  in_full = (tt, tt);
  unique_fees = λ k. ground arith;
  unique_payments = λ k. ground arith;
}

abbrev gateway : Gateway
gateway = record { enabled = true; provider_code = 83 ∷ [] }

abbrev succeeded : VerifiedPaymentWebhook
succeeded = record {
  event_id = 69 ∷ 49 ∷ [];
  reference = 100;
  provider_reference = 80 ∷ [];
  amount = pos 25000;
  succeeded = true;
  occurred_at = 300;
  failure_code = none;
}

-- The customer pays, the provider accepts, and reports the success twice.
abbrev pay_online : List Command
pay_online =
    create 100 gateway customer (record { shipment_id = 7; client_request_id = 55 }) nowhere
    ∷ accept 100 (80 ∷ []) 200
    ∷ webhook gateway (some succeeded) (1 ∷ []) nowhere 310
    ∷ webhook gateway (some succeeded) (1 ∷ []) nowhere 320
    ∷ []

execute_all-IsBalanced_example : IsBalanced (execute_all pay_online fee_store)
execute_all-IsBalanced_example = execute_all-IsBalanced pay_online fee_store fee_store-IsBalanced

execute_all-one_attempt_example :
    count_where (is_active_of 1) (execute_all pay_online fee_store).payments
      + count_where (is_success_of 1) (execute_all pay_online fee_store).payments
    ≤ 1
execute_all-one_attempt_example =
    execute_all-one_attempt pay_online fee_store 1 fee_store-IsBalanced

-- The customer has started the payment, and the provider has accepted it.
abbrev started : Store
started =
    execute_all
      (create 100 gateway customer (record { shipment_id = 7; client_request_id = 55 }) nowhere
        ∷ accept 100 (80 ∷ []) 200
        ∷ [])
      fee_store

handle_webhook-Repeats_example :
    Ensures
      (Repeats gateway succeeded (1 ∷ []) nowhere 320)
      (handle_webhook gateway (some succeeded) (1 ∷ []) nowhere 310 started)
handle_webhook-Repeats_example =
    handle_webhook-Repeats gateway succeeded (1 ∷ []) nowhere 310 nowhere 320 started
