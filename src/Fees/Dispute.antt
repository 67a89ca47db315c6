-- ===== src/Fees/Dispute.antt =====
-- `dispute` and `resolveDispute` of ShippingFeesService
-- (backend/src/modules/shipping-fees/shipping-fees.service.ts). The argument `others` is what other
-- transactions commit between the reads of a call and its guarded `updateMany`.
use project_logictic.Prelude.{
  ℕ, ◌&&◌, ◌||◌, Bool, true, false, not, Option, none, some, List, [], ◌∷◌, ◌++◌, is_none, is_some,
  if◌then◌else◌, find_first, count_where, update_many, any_of, leb,
}
use project_logictic.Prelude.Eq.{◌==◌, ◌!=◌, nat_eq, option_eq, list_eq}
use project_logictic.Text.{Text}
use project_logictic.Schema.{
  ShippingFeeTransactionStatus as FeeStatus, shipping_fee_transaction_status_eq,
}
use project_logictic.Store.{
  Store, ShippingFeeTransaction, ShippingFeeDispute, text, identifier, Actor, ClientContext, Tx,
  pure, throw_if, branch, gets, modify, or_throw, audit, ◌>>=◌, ◌>>◌, not_found, conflict,
  unique_violation, shipping_fee_transaction_not_found, shipping_fee_state_invalid,
  shipping_fee_dispute_active, shipping_fee_dispute_inconsistent, shipping_fee_dispute_not_active,
  shipping_fee_concurrent_modification, shipping_fee_dispute_reason_required,
  shipping_fee_resolution_note_required,
}
use project_logictic.Fees.Checks.{
  assert_admin, assert_collected_integrity, assert_remitted_integrity, required_text,
}
use project_logictic.Fees.Table.{update_fees, fee_by_id}
use project_logictic.Fees.Audit.{reconcile_audit, status_entry, find_fee}

-- A dispute of the fee that is not resolved.
unfoldable pub is_active_of : ℕ → ShippingFeeDispute → Bool
is_active_of fee_id row = row.shipping_fee_transaction_id == fee_id && is_none row.resolved_at

abbrev pub active_dispute : ℕ → Store → Option ShippingFeeDispute
active_dispute fee_id s = find_first (is_active_of fee_id) s.disputes

-- A resolved dispute of the fee.
unfoldable pub is_resolved_of : ℕ → ShippingFeeDispute → Bool
is_resolved_of fee_id row = row.shipping_fee_transaction_id == fee_id && is_some row.resolved_at

abbrev pub at_or_zero : Option ℕ → ℕ
at_or_zero none = 0
at_or_zero (some at) = at

-- The later of two disputes by a date; the first where the dates are equal.
abbrev pub later_by :
    (ShippingFeeDispute → ℕ) → ShippingFeeDispute → Option ShippingFeeDispute → ShippingFeeDispute
later_by at row none = row
later_by at row (some best) = if leb (at best) (at row) then row else best

-- `findFirst` with `orderBy` a date, descending.
unfoldable pub latest_by :
    (ShippingFeeDispute → ℕ)
    → (ShippingFeeDispute → Bool)
    → List ShippingFeeDispute
    → Option ShippingFeeDispute
latest_by at test [] = none
latest_by at test (row ∷ rows) =
    let best = latest_by at test rows in if test row then some (later_by at row best) else best

unfoldable pub is_disputable : FeeStatus → Bool
is_disputable FeeStatus.collected = true
is_disputable FeeStatus.remitted = true
is_disputable _ = false

unfoldable pub dispute_where : ShippingFeeTransaction → ShippingFeeTransaction → Bool
dispute_where fee row = row.id == fee.id && row.status == fee.status

unfoldable pub dispute_data : ShippingFeeTransaction → ShippingFeeTransaction
dispute_data row = record row { status = FeeStatus.disputed }

unfoldable pub opened_dispute : ℕ → ShippingFeeTransaction → Text → ℕ → ℕ → ShippingFeeDispute
opened_dispute new_id fee reason admin_id now = record {
  id = new_id;
  shipping_fee_transaction_id = fee.id;
  from_status = fee.status;
  reason = reason;
  opened_by_id = admin_id;
  opened_at = now;
  resolved_by_id = none;
  resolved_at = none;
  resolution_note = none;
}

-- `shippingFeeDispute.create`; the primary key refuses an id that is there.
unfoldable pub create_dispute : ShippingFeeDispute → Tx (Unit {0})
create_dispute row = do
  disputes ← gets (λ s. s.disputes)
  throw_if (any_of (λ other. other.id == row.id) disputes) unique_violation
  modify (λ s. record s { disputes = s.disputes ++ (row ∷ []) })

-- The guarded update of `dispute`, and what follows it.
unfoldable pub dispute_now :
    (Store → Store)
    → ℕ
    → Actor
    → ShippingFeeTransaction
    → Text
    → ℕ
    → ClientContext
    → Tx ShippingFeeTransaction
unfolding dispute_where dispute_data opened_dispute create_dispute
dispute_now others new_id actor fee reason now context = do
  modify others
  count ← update_fees (dispute_where fee) dispute_data
  throw_if (count != 1) (conflict shipping_fee_concurrent_modification)
  create_dispute (opened_dispute new_id fee reason actor.id now)
  audit (
      reconcile_audit actor context "SHIPPING_FEE_DISPUTED" fee.id (status_entry fee.status ∷ [])
        (status_entry FeeStatus.disputed ∷ [])
        (("shipmentId", identifier fee.shipment_id)
          ∷ ("disputeId", identifier new_id)
          ∷ ("reason", text reason)
          ∷ []))
  find_fee fee.id

-- Whether an active dispute is the one that a retry asks for.
abbrev pub is_same_dispute : Option ShippingFeeDispute → ℕ → Text → Bool
is_same_dispute none admin_id reason = false
is_same_dispute (some row) admin_id reason = row.opened_by_id == admin_id && row.reason == reason

unfoldable pub dispute :
    (Store → Store) → ℕ → Actor → ℕ → Text → ℕ → ClientContext → Tx ShippingFeeTransaction
unfolding assert_admin required_text assert_collected_integrity assert_remitted_integrity
    is_disputable
dispute others new_id actor id raw_reason now context = do
  assert_admin actor
  reason ← required_text raw_reason shipping_fee_dispute_reason_required
  fee ← or_throw (← gets (fee_by_id id)) (not_found shipping_fee_transaction_not_found)
  active ← gets (active_dispute fee.id)
  branch (fee.status == FeeStatus.disputed)
      ((do
        throw_if (not (is_same_dispute active actor.id reason))
            (conflict shipping_fee_dispute_active)
        find_fee fee.id))
      (do
        throw_if (not (is_disputable fee.status)) (conflict shipping_fee_state_invalid)
        assert_collected_integrity fee
        branch (fee.status == FeeStatus.remitted) (assert_remitted_integrity fee) (pure tt)
        throw_if (is_some active) (conflict shipping_fee_dispute_inconsistent)
        dispute_now others new_id actor fee reason now context)

unfoldable pub resolve_where : ShippingFeeTransaction → ShippingFeeTransaction → Bool
resolve_where fee row = row.id == fee.id && row.status == FeeStatus.disputed

unfoldable pub resolve_data : FeeStatus → ShippingFeeTransaction → ShippingFeeTransaction
resolve_data from row = record row { status = from }

unfoldable pub close_where : ShippingFeeDispute → ShippingFeeDispute → Bool
close_where active row = row.id == active.id && is_none row.resolved_at

unfoldable pub close_data : ℕ → ℕ → Text → ShippingFeeDispute → ShippingFeeDispute
close_data admin_id now note row = record row {
  resolved_by_id = some admin_id;
  resolved_at = some now;
  resolution_note = some note;
}

abbrev pub update_disputes :
    (ShippingFeeDispute → Bool) → (ShippingFeeDispute → ShippingFeeDispute) → Tx ℕ
update_disputes test change = do
  count ← gets (λ s. count_where test s.disputes)
  modify (λ s. record s { disputes = update_many test change s.disputes })
  pure count

-- The two guarded updates of `resolveDispute`, and what follows them.
unfoldable pub resolve_now :
    (Store → Store)
    → Actor
    → ShippingFeeTransaction
    → ShippingFeeDispute
    → Text
    → ℕ
    → ClientContext
    → Tx ShippingFeeTransaction
unfolding resolve_where resolve_data close_where close_data
resolve_now others actor fee active note now context = do
  modify others
  changed ← update_fees (resolve_where fee) (resolve_data active.from_status)
  throw_if (changed != 1) (conflict shipping_fee_concurrent_modification)
  closed ← update_disputes (close_where active) (close_data actor.id now note)
  throw_if (closed != 1) (conflict shipping_fee_concurrent_modification)
  audit (
      reconcile_audit actor context "SHIPPING_FEE_DISPUTE_RESOLVED" fee.id
        (status_entry FeeStatus.disputed ∷ []) (status_entry active.from_status ∷ [])
        (("shipmentId", identifier fee.shipment_id)
          ∷ ("disputeId", identifier active.id)
          ∷ ("resolutionNote", text note)
          ∷ []))
  find_fee fee.id

-- Whether the last resolved dispute is the one that a retry asks for.
abbrev pub is_same_resolution : Option ShippingFeeDispute → ℕ → Text → Bool
is_same_resolution none admin_id note = false
is_same_resolution (some row) admin_id note =
    row.resolved_by_id == some admin_id && row.resolution_note == some note

-- The branch of a fee that has no active dispute.
unfoldable pub resolve_again : Actor → ShippingFeeTransaction → Text → Tx ShippingFeeTransaction
unfolding latest_by is_resolved_of
resolve_again actor fee note = do
  resolved ←
      gets (λ s. latest_by (λ row. at_or_zero row.resolved_at) (is_resolved_of fee.id) s.disputes)
  throw_if (not (is_same_resolution resolved actor.id note))
      (conflict shipping_fee_dispute_not_active)
  find_fee fee.id

-- The branch of a disputed fee with its active dispute.
unfoldable pub resolve_active :
    (Store → Store)
    → Actor
    → ShippingFeeTransaction
    → ShippingFeeDispute
    → Text
    → ℕ
    → ClientContext
    → Tx ShippingFeeTransaction
unfolding assert_collected_integrity assert_remitted_integrity is_disputable
resolve_active others actor fee active note now context = do
  throw_if (not (is_disputable active.from_status)) (conflict shipping_fee_dispute_inconsistent)
  assert_collected_integrity fee
  branch (active.from_status == FeeStatus.remitted) (assert_remitted_integrity fee) (
      throw_if
        (is_some fee.remitted_amount
          || is_some fee.remitted_by_driver_id
          || is_some fee.remitted_at)
        (conflict shipping_fee_dispute_inconsistent))
  resolve_now others actor fee active note now context

-- The two branches, by the fee's status and its active dispute.
unfoldable pub resolve_branch :
    (Store → Store)
    → Actor
    → ShippingFeeTransaction
    → Option ShippingFeeDispute
    → Text
    → ℕ
    → ClientContext
    → Tx ShippingFeeTransaction
resolve_branch others actor fee none note now context = resolve_again actor fee note
resolve_branch others actor fee (some active) note now context =
    branch (fee.status == FeeStatus.disputed)
      (resolve_active others actor fee active note now context) (resolve_again actor fee note)

unfoldable pub resolve_dispute :
    (Store → Store) → Actor → ℕ → Text → ℕ → ClientContext → Tx ShippingFeeTransaction
unfolding assert_admin required_text latest_by is_active_of
resolve_dispute others actor id raw_note now context = do
  assert_admin actor
  note ← required_text raw_note shipping_fee_resolution_note_required
  fee ← or_throw (← gets (fee_by_id id)) (not_found shipping_fee_transaction_not_found)
  active ← gets (λ s. latest_by (λ row. row.opened_at) (is_active_of fee.id) s.disputes)
  resolve_branch others actor fee active note now context
