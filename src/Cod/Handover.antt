-- ===== src/Cod/Handover.antt =====
-- `remit`, `reviewRemittance` and `settle` of CodService (backend/src/modules/cod/cod.service.ts):
-- the cash goes from the driver to the company.
use project_logictic.Prelude.{
  ℕ, ◌&&◌, ◌||◌, Bool, true, false, not, Option, none, some, [], ◌∷◌, ◌++◌, suc, if◌then◌else◌,
  find_first, any_of,
}
use project_logictic.Prelude.Int.{ℤ, pos}
use project_logictic.Prelude.Eq.{◌==◌, ◌!=◌, nat_eq, int_eq, option_eq, list_eq}
use project_logictic.Text.{Text}
use project_logictic.Schema.{
  UserRole, CodTransactionStatus, cod_transaction_status_eq, cod_transaction_status_name,
  CodRemittanceStatus, cod_remittance_status_eq, cod_remittance_status_name,
}
use project_logictic.Store.{
  Store, CodTransaction, CodRemittance, text, word, identifier, number, Actor, ClientContext, Tx,
  pure, throw_if, branch, gets, modify, or_throw, audit, ◌>>=◌, ◌>>◌, conflict, record_not_found,
  unique_violation, cod_retry_conflict, cod_handover_pending, cod_reason_required,
}
use project_logictic.Cod.Checks.{
  cod_not_found, invalid_state, require_role, check_amount, check_version, check_changed, cod_by_id,
  remittance_by_id, lock, update_cods, update_remittances, non_empty, trimmed, is_falsy, cod_audit,
}
use project_logictic.Fees.Audit.{driver_of_user}
use project_logictic.Fees.Table.{or_null}

pub record SubmitRemittance : Type 0 where
  pub amount : ℤ
  pub client_request_id : ℕ
  pub note : Option Text

abbrev pub cod_of_shipment : ℕ → Store → Option CodTransaction
cod_of_shipment shipment_id s = find_first (λ cod. cod.shipment_id == shipment_id) s.cods

-- The remittance that the request with this id has made.
abbrev pub requested_remittance : ℕ → ℕ → Store → Option CodRemittance
requested_remittance cod_id request_id s =
    find_first (λ row. row.cod_transaction_id == cod_id && row.client_request_id == request_id)
      s.remittances

unfoldable pub is_pending_of : ℕ → CodRemittance → Bool
is_pending_of cod_id row =
    row.cod_transaction_id == cod_id && row.status == CodRemittanceStatus.pending

unfoldable pub new_remittance : ℕ → CodTransaction → ℕ → SubmitRemittance → CodRemittance
new_remittance new_id cod driver_id dto = record {
  id = new_id;
  cod_transaction_id = cod.id;
  amount = dto.amount;
  client_request_id = dto.client_request_id;
  submitted_by_driver_id = driver_id;
  status = CodRemittanceStatus.pending;
  reviewed_by_admin_id = none;
  reviewed_at = none;
  rejection_reason = none;
  note = non_empty dto.note;
  version = 0;
}

-- The part of `remit` for a request that has not been served yet.
unfoldable pub remit_new :
    ℕ → Actor → CodTransaction → ℕ → SubmitRemittance → ClientContext → Tx CodRemittance
unfolding new_remittance is_pending_of
remit_new new_id actor cod driver_id dto context = do
  throw_if (cod.status != CodTransactionStatus.collected) invalid_state
  pending ← gets (λ s. any_of (is_pending_of cod.id) s.remittances)
  throw_if pending (conflict cod_handover_pending)
  taken ← gets (λ s. any_of (λ row. row.id == new_id) s.remittances)
  throw_if taken unique_violation
  modify (λ s. record s {
    remittances = s.remittances ++ (new_remittance new_id cod driver_id dto ∷ []);
  })
  audit (
      cod_audit actor context "COD_HANDOVER_SUBMITTED" "CODRemittance" new_id none (
        ("status", word "PENDING")
        ∷ ("amount", number dto.amount)
        ∷ ("codTransactionId", identifier cod.id)
        ∷ []))
  pure (new_remittance new_id cod driver_id dto)

-- A retry returns what the first request has made, if it asks for the same.
unfoldable pub remit_retry :
    ℕ
    → Actor
    → CodTransaction
    → ℕ
    → SubmitRemittance
    → ClientContext
    → Option CodRemittance
    → Tx CodRemittance
remit_retry new_id actor cod driver_id dto context none =
    remit_new new_id actor cod driver_id dto context
remit_retry new_id actor cod driver_id dto context (some existing) = do
  throw_if
      (existing.amount != dto.amount
        || existing.submitted_by_driver_id != driver_id
        || existing.note != non_empty dto.note)
      (conflict cod_retry_conflict)
  pure existing

unfoldable pub remit : ℕ → Actor → ℕ → SubmitRemittance → ClientContext → Tx CodRemittance
unfolding require_role lock check_amount
remit new_id actor shipment_id dto context = do
  require_role actor UserRole.driver
  found ← or_throw (← gets (cod_of_shipment shipment_id)) cod_not_found
  cod ← lock found.id
  driver ← or_throw (← gets (driver_of_user actor.id)) cod_not_found
  throw_if (cod.collected_by_driver_id != some driver.id) cod_not_found
  check_amount cod (some dto.amount)
  existing ← gets (requested_remittance cod.id dto.client_request_id)
  remit_retry new_id actor cod driver.id dto context existing

abbrev pub reviewed_status : Bool → CodRemittanceStatus
reviewed_status true = CodRemittanceStatus.confirmed
reviewed_status false = CodRemittanceStatus.rejected

unfoldable pub review_where : ℕ → ℕ → CodRemittance → Bool
review_where id version row =
    row.id == id && row.status == CodRemittanceStatus.pending && row.version == version

unfoldable pub review_data : Bool → ℕ → Option Text → ℕ → CodRemittance → CodRemittance
review_data confirm admin_id reason now row = record row {
  status = reviewed_status confirm;
  reviewed_by_admin_id = some admin_id;
  reviewed_at = some now;
  rejection_reason = reason;
  version = suc row.version;
}

unfoldable pub remitted_where : CodTransaction → CodTransaction → Bool
remitted_where cod row =
    row.id == cod.id && row.status == CodTransactionStatus.collected && row.version == cod.version

unfoldable pub remitted_data : ℤ → ℕ → CodTransaction → CodTransaction
remitted_data amount now row = record row {
  status = CodTransactionStatus.remitted;
  remitted_amount = some amount;
  remitted_at = some now;
  version = suc row.version;
}

-- The part of `reviewRemittance` for a confirmed handover: the COD is remitted.
unfoldable pub confirm_handover :
    Actor → CodTransaction → CodRemittance → ℕ → ClientContext → Tx (Unit {0})
unfolding remitted_where remitted_data check_changed
confirm_handover actor cod row now context = do
  count ← update_cods (remitted_where cod) (remitted_data row.amount now)
  check_changed count
  audit (
      cod_audit actor context "COD_REMITTED" "CODTransaction" cod.id
        (some (("status", word (cod_transaction_status_name cod.status)) ∷ []))
        (("status", word "REMITTED")
          ∷ ("amount", number row.amount)
          ∷ ("remittanceId", identifier row.id)
          ∷ []))

-- A review that has been made already, with the same result, by the same admin.
abbrev pub is_same_review : CodRemittance → Bool → ℕ → ℕ → Option Text → Bool
is_same_review row confirm version admin_id reason =
    row.status == reviewed_status confirm
    && row.version == suc version
    && row.reviewed_by_admin_id == some admin_id
    && row.rejection_reason == reason

-- The guarded updates of `reviewRemittance`, after its checks.
unfoldable pub review_now :
    Actor
    → CodTransaction
    → CodRemittance
    → ℕ
    → Bool
    → Option Text
    → ℕ
    → ClientContext
    → Tx CodRemittance
unfolding review_where review_data check_changed
review_now actor cod row version confirm reason now context = do
  count ← update_remittances (review_where row.id version) (review_data confirm actor.id reason now)
  check_changed count
  branch confirm (confirm_handover actor cod row now context) (pure tt)
  audit (
      cod_audit actor context
        (if confirm then "COD_HANDOVER_CONFIRMED" else "COD_HANDOVER_REJECTED") "CODRemittance"
        row.id
        (some (
          ("status", word (cod_remittance_status_name row.status))
          ∷ ("version", number (pos row.version))
          ∷ []))
        (("status", word (cod_remittance_status_name (reviewed_status confirm)))
          ∷ ("reason", or_null text reason)
          ∷ ("amount", number row.amount)
          ∷ []))
  or_throw (← gets (remittance_by_id row.id)) record_not_found

unfoldable pub review_remittance :
    Actor → ℕ → ℕ → Option Text → Bool → ℕ → ClientContext → Tx CodRemittance
unfolding require_role lock check_version check_amount
review_remittance actor id version raw_reason confirm now context = do
  require_role actor UserRole.admin
  row ← or_throw (← gets (remittance_by_id id)) cod_not_found
  cod ← lock row.cod_transaction_id
  let reason = trimmed raw_reason
  throw_if (not confirm && is_falsy reason) (conflict cod_reason_required)
  branch (is_same_review row confirm version actor.id reason) (pure row) do
    throw_if
        (row.status != CodRemittanceStatus.pending || cod.status != CodTransactionStatus.collected)
        invalid_state
    check_version row.version version
    check_amount cod (some row.amount)
    review_now actor cod row version confirm reason now context

unfoldable pub settle_where : CodTransaction → CodTransaction → Bool
settle_where cod row =
    row.id == cod.id
    && row.status == CodTransactionStatus.remitted
    && row.version == cod.version
    && row.collected_amount == some cod.expected_amount
    && row.remitted_amount == some cod.expected_amount

unfoldable pub settle_data : ℕ → CodTransaction → CodTransaction
settle_data now row = record row {
  status = CodTransactionStatus.settled;
  settled_at = some now;
  version = suc row.version;
}

unfoldable pub settle : Actor → ℕ → ℕ → ClientContext → Tx CodTransaction
unfolding require_role lock check_amount check_changed settle_where settle_data
settle actor id now context = do
  require_role actor UserRole.admin
  cod ← lock id
  check_amount cod cod.remitted_amount
  branch (cod.status == CodTransactionStatus.settled) (pure cod) do
    throw_if (cod.status != CodTransactionStatus.remitted) invalid_state
    count ← update_cods (settle_where cod) (settle_data now)
    check_changed count
    audit (
        cod_audit actor context "COD_SETTLED" "CODTransaction" id
          (some (("status", word (cod_transaction_status_name cod.status)) ∷ []))
          (("status", word "SETTLED") ∷ ("amount", number cod.expected_amount) ∷ []))
    or_throw (← gets (cod_by_id id)) record_not_found
