-- ===== src/Cod/Payout.antt =====
-- `createPayout`, `sendPayout` and `acknowledgePayout` of CodService
-- (backend/src/modules/cod/cod.service.ts): the company pays the customer.
use project_logictic.Prelude.{
  ℕ, ◌&&◌, ◌||◌, Bool, true, false, not, Option, none, some, [], ◌∷◌, ◌++◌, suc, is_some, is_none,
  if◌then◌else◌, find_first, any_of,
}
use project_logictic.Prelude.Int.{ℤ}
use project_logictic.Prelude.Eq.{◌==◌, ◌!=◌, nat_eq, int_eq, option_eq, list_eq}
use project_logictic.Text.{Text, trim}
use project_logictic.Schema.{
  UserRole, CodTransactionStatus, cod_transaction_status_eq, CodPayoutStatus, cod_payout_status_eq,
  cod_payout_status_name, CodPayoutMethod, cod_payout_method_eq, cod_payout_method_name,
}
use project_logictic.Store.{
  Store, CodTransaction, CodPayout, Shipment, text, word, identifier, number, Actor, ClientContext,
  Tx, pure, throw_if, branch, gets, modify, or_throw, audit, ◌>>=◌, ◌>>◌, conflict,
  record_not_found, unique_violation, cod_retry_conflict, cod_reason_required,
  cod_reference_required, cod_reference_mismatch,
}
use project_logictic.Cod.Checks.{
  cod_not_found, invalid_state, require_role, check_amount, check_version, check_changed,
  payout_by_id, lock, lock_payout, update_payouts, non_empty, trimmed, is_falsy, cod_audit,
}
use project_logictic.Fees.Table.{or_null}

pub record CreatePayout : Type 0 where
  pub amount : ℤ
  pub method : CodPayoutMethod
  pub reference : Option Text
  pub note : Option Text

abbrev pub payout_of_cod : ℕ → Store → Option CodPayout
payout_of_cod cod_id s = find_first (λ row. row.cod_transaction_id == cod_id) s.payouts

abbrev pub shipment_by_id : ℕ → Store → Option Shipment
shipment_by_id id s = find_first (λ row. row.id == id) s.shipments

unfoldable pub new_payout : ℕ → ℕ → ℕ → Option Text → CreatePayout → ℕ → CodPayout
new_payout new_id cod_id customer_id reference dto admin_id = record {
  id = new_id;
  cod_transaction_id = cod_id;
  customer_id = customer_id;
  amount = dto.amount;
  method = dto.method;
  reference = reference;
  note = non_empty dto.note;
  status = CodPayoutStatus.pending;
  created_by_admin_id = admin_id;
  sent_by_admin_id = none;
  sent_at = none;
  customer_confirmed_at = none;
  disputed_at = none;
  dispute_reason = none;
  version = 0;
}

-- A COD that has its payout already: a retry returns it, if it asks for the same.
unfoldable pub payout_retry : Actor → Option Text → CreatePayout → CodPayout → Tx CodPayout
payout_retry actor reference dto existing = do
  throw_if
      (existing.amount != dto.amount
        || existing.method != dto.method
        || existing.reference != reference
        || existing.note != non_empty dto.note
        || existing.created_by_admin_id != actor.id)
      (conflict cod_retry_conflict)
  pure existing

unfoldable pub payout_new :
    ℕ → Actor → CodTransaction → Option Text → CreatePayout → ClientContext → Tx CodPayout
unfolding new_payout
payout_new new_id actor cod payout_reference dto context = do
  shipment ← or_throw (← gets (shipment_by_id cod.shipment_id)) record_not_found
  taken ← gets (λ s. any_of (λ row. row.id == new_id) s.payouts)
  throw_if taken unique_violation
  let created = new_payout new_id cod.id shipment.customer_id payout_reference dto actor.id
  modify (λ s. record s { payouts = s.payouts ++ (created ∷ []) })
  audit (
      cod_audit actor context "COD_PAYOUT_CREATED" "CODPayout" new_id none (
        ("status", word "PENDING")
        ∷ ("amount", number dto.amount)
        ∷ ("method", word (cod_payout_method_name dto.method))
        ∷ ("reference", or_null text payout_reference)
        ∷ ("codTransactionId", identifier cod.id)
        ∷ ("customerId", identifier shipment.customer_id)
        ∷ []))
  pure created

unfoldable pub payout_existing :
    ℕ
    → Actor
    → CodTransaction
    → Option Text
    → CreatePayout
    → ClientContext
    → Option CodPayout
    → Tx CodPayout
payout_existing new_id actor cod payout_reference dto context none =
    payout_new new_id actor cod payout_reference dto context
payout_existing new_id actor cod payout_reference dto context (some existing) =
    payout_retry actor payout_reference dto existing

unfoldable pub create_payout : ℕ → Actor → ℕ → CreatePayout → ClientContext → Tx CodPayout
unfolding require_role lock check_amount
create_payout new_id actor cod_id dto context = do
  require_role actor UserRole.admin
  cod ← lock cod_id
  throw_if (cod.status != CodTransactionStatus.settled) invalid_state
  check_amount cod (some dto.amount)
  check_amount cod cod.remitted_amount
  let payout_reference = non_empty (trimmed dto.reference)
  throw_if (is_none payout_reference) (conflict cod_reference_required)
  existing ← gets (payout_of_cod cod_id)
  payout_existing new_id actor cod payout_reference dto context existing

unfoldable pub send_where : ℕ → ℕ → CodPayout → Bool
send_where id version row =
    row.id == id && row.status == CodPayoutStatus.pending && row.version == version

unfoldable pub send_data : ℕ → ℕ → CodPayout → CodPayout
send_data admin_id now row = record row {
  status = CodPayoutStatus.sent;
  sent_at = some now;
  sent_by_admin_id = some admin_id;
  version = suc row.version;
}

-- The guarded update of `sendPayout`, after its checks.
unfoldable pub send_now : Actor → CodPayout → ℕ → ℕ → ClientContext → Tx CodPayout
unfolding send_where send_data check_changed
send_now actor payout version now context = do
  count ← update_payouts (send_where payout.id version) (send_data actor.id now)
  check_changed count
  audit (
      cod_audit actor context "COD_PAYOUT_SENT" "CODPayout" payout.id
        (some (("status", word "PENDING") ∷ []))
        (("status", word "SENT")
          ∷ ("reference", or_null text payout.reference)
          ∷ ("amount", number payout.amount)
          ∷ []))
  or_throw (← gets (payout_by_id payout.id)) record_not_found

unfoldable pub send_payout : Actor → ℕ → Text → ℕ → ℕ → ClientContext → Tx CodPayout
unfolding require_role lock_payout check_amount check_version
send_payout actor id raw_reference version now context = do
  require_role actor UserRole.admin
  locked ← lock_payout id
  let cod = locked.0
  let payout = locked.1
  throw_if (cod.status != CodTransactionStatus.settled) invalid_state
  check_amount cod (some payout.amount)
  throw_if (is_falsy (some (trim raw_reference)) || payout.reference != some (trim raw_reference))
      (conflict cod_reference_mismatch)
  branch (is_some payout.sent_at && payout.sent_by_admin_id == some actor.id && version == 0)
      (pure payout)
      do
        throw_if (payout.status != CodPayoutStatus.pending) invalid_state
        check_version payout.version version
        send_now actor payout version now context

abbrev pub acknowledged_status : Bool → CodPayoutStatus
acknowledged_status true = CodPayoutStatus.paid_out
acknowledged_status false = CodPayoutStatus.disputed

unfoldable pub acknowledge_where : ℕ → ℕ → ℕ → CodPayout → Bool
acknowledge_where id customer_id version row =
    row.id == id
    && row.customer_id == customer_id
    && row.status == CodPayoutStatus.sent
    && row.version == version

unfoldable pub acknowledge_data : Bool → Option Text → ℕ → CodPayout → CodPayout
acknowledge_data received reason now row = record row {
  status = acknowledged_status received;
  customer_confirmed_at = if received then some now else none;
  disputed_at = if received then none else some now;
  dispute_reason = reason;
  version = suc row.version;
}

-- The guarded update of `acknowledgePayout`, after its checks.
unfoldable pub acknowledge_now :
    Actor → CodPayout → ℕ → Bool → Option Text → ℕ → ClientContext → Tx CodPayout
unfolding acknowledge_where acknowledge_data check_changed
acknowledge_now actor payout version received reason now context = do
  count ←
      update_payouts (acknowledge_where payout.id actor.id version)
        (acknowledge_data received reason now)
  check_changed count
  audit (
      cod_audit actor context (if received then "COD_PAYOUT_RECEIVED" else "COD_PAYOUT_DISPUTED")
        "CODPayout" payout.id (some (("status", word "SENT") ∷ []))
        (("status", word (cod_payout_status_name (acknowledged_status received)))
          ∷ ("amount", number payout.amount)
          ∷ ("reason", or_null text reason)
          ∷ []))
  or_throw (← gets (payout_by_id payout.id)) record_not_found

-- The acknowledgement that a retry asks for stands in the row already.
abbrev pub is_same_acknowledgement : CodPayout → Bool → ℕ → Option Text → Bool
is_same_acknowledgement payout received version reason =
    payout.status == acknowledged_status received
    && payout.version == suc version
    && payout.dispute_reason == reason

abbrev pub owned_shipment : ℕ → ℕ → Store → Bool
owned_shipment shipment_id customer_id s =
    any_of (λ row. row.id == shipment_id && row.customer_id == customer_id) s.shipments

unfoldable pub acknowledge_payout :
    Actor → ℕ → ℕ → Option Text → Bool → ℕ → ClientContext → Tx CodPayout
unfolding require_role lock_payout check_amount check_version
acknowledge_payout actor id version raw_reason received now context = do
  require_role actor UserRole.customer
  locked ← lock_payout id
  let cod = locked.0
  let payout = locked.1
  owned ← gets (owned_shipment cod.shipment_id actor.id)
  throw_if (payout.customer_id != actor.id || not owned) cod_not_found
  let reason = trimmed raw_reason
  throw_if (not received && is_falsy reason) (conflict cod_reason_required)
  branch (is_same_acknowledgement payout received version reason) (pure payout) do
    throw_if (cod.status != CodTransactionStatus.settled || payout.status != CodPayoutStatus.sent)
        invalid_state
    check_amount cod (some payout.amount)
    check_version payout.version version
    acknowledge_now actor payout version received reason now context
