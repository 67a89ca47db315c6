-- ===== src/Cod/Checks.antt =====
-- The helpers of CodService (backend/src/modules/cod/cod.service.ts). Every command locks the COD
-- transaction (`SELECT … FOR UPDATE`) before it reads what may change, so two commands on one COD
-- transaction run one after the other, and a command here runs by itself.
use project_logictic.Prelude.{
  ℕ, ◌&&◌, Bool, true, false, not, Option, none, some, List, ◌∷◌, String, find_first, count_where,
  update_many,
}
use project_logictic.Prelude.Int.{ℤ}
use project_logictic.Prelude.Eq.{◌==◌, ◌!=◌, nat_eq, int_eq, option_eq}
use project_logictic.Text.{Text, trim}
use project_logictic.Schema.{UserRole, user_role_eq}
use project_logictic.Store.{
  Store, CodTransaction, CodRemittance, CodPayout, AuditLog, Json, Actor, ClientContext, Tx, pure,
  throw_if, gets, modify, or_throw, ◌>>=◌, ◌>>◌, Exception, forbidden, not_found, conflict,
  cod_role_forbidden, cod_transaction_not_found, cod_amount_mismatch, cod_state_invalid,
  cod_concurrent_modification,
}
use project_logictic.Fees.Checks.{is_positive_integer}

abbrev pub cod_not_found : Exception
cod_not_found = not_found cod_transaction_not_found

abbrev pub invalid_state : Exception
invalid_state = conflict cod_state_invalid

unfoldable pub require_role : Actor → UserRole → Tx (Unit {0})
require_role actor role = throw_if (actor.role != role) (forbidden cod_role_forbidden)

-- `Number.isSafeInteger(amount) && amount !== null && amount > 0 && amount === expected &&
-- collected === expected`
abbrev pub is_full_amount : CodTransaction → Option ℤ → Bool
is_full_amount cod none = false
is_full_amount cod (some amount) =
    is_positive_integer amount
    && amount == cod.expected_amount
    && cod.collected_amount == some cod.expected_amount

unfoldable pub check_amount : CodTransaction → Option ℤ → Tx (Unit {0})
check_amount cod amount = throw_if (not (is_full_amount cod amount)) (conflict cod_amount_mismatch)

unfoldable pub check_version : ℕ → ℕ → Tx (Unit {0})
check_version actual expected = throw_if (actual != expected) (conflict cod_concurrent_modification)

unfoldable pub check_changed : ℕ → Tx (Unit {0})
check_changed count = throw_if (count != 1) (conflict cod_concurrent_modification)

abbrev pub cod_by_id : ℕ → Store → Option CodTransaction
cod_by_id id s = find_first (λ cod. cod.id == id) s.cods

abbrev pub remittance_by_id : ℕ → Store → Option CodRemittance
remittance_by_id id s = find_first (λ row. row.id == id) s.remittances

abbrev pub payout_by_id : ℕ → Store → Option CodPayout
payout_by_id id s = find_first (λ row. row.id == id) s.payouts

-- `lock`: the row as it stands once the lock is held.
unfoldable pub lock : ℕ → Tx CodTransaction
lock id = do or_throw (← gets (cod_by_id id)) cod_not_found

unfoldable pub lock_payout : ℕ → Tx (CodTransaction × CodPayout)
unfolding lock
lock_payout id = do
  payout ← or_throw (← gets (payout_by_id id)) cod_not_found
  cod ← lock payout.cod_transaction_id
  pure (cod, payout)

abbrev pub update_cods : (CodTransaction → Bool) → (CodTransaction → CodTransaction) → Tx ℕ
update_cods test change = do
  count ← gets (λ s. count_where test s.cods)
  modify (λ s. record s { cods = update_many test change s.cods })
  pure count

abbrev pub update_remittances : (CodRemittance → Bool) → (CodRemittance → CodRemittance) → Tx ℕ
update_remittances test change = do
  count ← gets (λ s. count_where test s.remittances)
  modify (λ s. record s { remittances = update_many test change s.remittances })
  pure count

abbrev pub update_payouts : (CodPayout → Bool) → (CodPayout → CodPayout) → Tx ℕ
update_payouts test change = do
  count ← gets (λ s. count_where test s.payouts)
  modify (λ s. record s { payouts = update_many test change s.payouts })
  pure count

-- `value || null`: an empty text counts as none.
abbrev pub non_empty : Option Text → Option Text
non_empty (some (c ∷ cs)) = some (c ∷ cs)
non_empty _ = none

-- `dto.reason.trim()`, or null where the request has no reason.
abbrev pub trimmed : Option Text → Option Text
trimmed none = none
trimmed (some t) = some (trim t)

-- `!reason`
abbrev pub is_falsy : Option Text → Bool
is_falsy (some (c ∷ cs)) = false
is_falsy _ = true

pub cod_audit :
    Actor
    → ClientContext
    → String
    → String
    → ℕ
    → Option (List (String × Json))
    → List (String × Json)
    → AuditLog
cod_audit actor context action entity_type entity_id before after = record {
  actor_id = actor.id;
  actor_role = actor.role;
  action = action;
  entity_type = entity_type;
  entity_id = entity_id;
  before = before;
  after = some after;
  metadata = none;
  ip_address = context.ip_address;
  user_agent = context.user_agent;
}
