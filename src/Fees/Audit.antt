-- ===== src/Fees/Audit.antt =====
-- The audit entry of a reconciliation, and the rows that it reads
-- (backend/src/modules/shipping-fees/shipping-fees.service.ts).
use project_logictic.Prelude.{ℕ, Option, some, List, String, find_first}
use project_logictic.Prelude.Eq.{◌==◌, nat_eq}
use project_logictic.Schema.{
  ShippingFeeTransactionStatus as FeeStatus, shipping_fee_transaction_status_name,
}
use project_logictic.Store.{
  Store, DriverProfile, ShippingFeeTransaction, AuditLog, Json, word, Actor, ClientContext, Tx,
  gets, or_throw, ◌>>=◌, record_not_found,
}
use project_logictic.Fees.Table.{fee_by_id}

pub reconcile_audit :
    Actor
    → ClientContext
    → String
    → ℕ
    → List (String × Json)
    → List (String × Json)
    → List (String × Json)
    → AuditLog
reconcile_audit actor context action entity_id before after metadata = record {
  actor_id = actor.id;
  actor_role = actor.role;
  action = action;
  entity_type = "ShippingFeeTransaction";
  entity_id = entity_id;
  before = some before;
  after = some after;
  metadata = some metadata;
  ip_address = context.ip_address;
  user_agent = context.user_agent;
}

abbrev pub status_entry : FeeStatus → String × Json
status_entry status = ("status", word (shipping_fee_transaction_status_name status))

abbrev pub driver_of_user : ℕ → Store → Option DriverProfile
driver_of_user user_id s = find_first (λ driver. driver.user_id == user_id) s.drivers

-- `findUniqueOrThrow` of the fee.
abbrev pub find_fee : ℕ → Tx ShippingFeeTransaction
find_fee id = do or_throw (← gets (fee_by_id id)) record_not_found
