-- ===== src/Payments/Service.antt =====
-- Any sequence of transactions of ShippingFeePaymentsService, each of which is a command.
use project_logictic.Prelude.{ℕ, ◌≤◌, ◌+◌, Option, List, [], ◌∷◌, count_where, arith}
use project_logictic.Prelude.Eq.{◌==◌, nat_eq}
use project_logictic.Text.{Text}
use project_logictic.Store.{Store, Actor, ClientContext, after, after-keeps, ShippingFeeTransaction}
use project_logictic.Payments.Checks.{Gateway}
use project_logictic.Payments.Create.{CreatePayment, create_attempt, accept_checkout, is_active_of}
use project_logictic.Payments.Webhook.{VerifiedPaymentWebhook, handle_webhook}
use project_logictic.Payments.Balance.{IsBalanced, is_waiting, is_paid, is_success_of}
use project_logictic.Payments.Keeps.{create_attempt-keeps, accept_checkout-keeps}
use project_logictic.Payments.WebhookKeeps.{handle_webhook-keeps}

pub data Command : Type 0 where
  create : (new_id : ℕ) → Gateway → Actor → CreatePayment → ClientContext → Command
  accept : (payment_id : ℕ) → (provider_reference : Text) → (now : ℕ) → Command
  webhook :
      Gateway
      → Option VerifiedPaymentWebhook
      → (digest : Text) → ClientContext
      → (now : ℕ) → Command

-- The database after a command; one that throws changes nothing.
unfoldable pub execute : Command → Store → Store
execute (create new_id gateway actor dto context) s =
    after s (create_attempt new_id gateway actor dto context s)
execute (accept payment_id provider_reference now) s =
    after s (accept_checkout payment_id provider_reference now s)
execute (webhook gateway verified digest context now) s =
    after s (handle_webhook gateway verified digest context now s)

unfoldable pub execute_all : List Command → Store → Store
execute_all [] s = s
execute_all (command ∷ commands) s = execute_all commands (execute command s)

execute-IsBalanced : (command : Command) (s : Store) → IsBalanced s → IsBalanced (execute command s)
unfolding execute
execute-IsBalanced (create new_id gateway actor dto context) s h =
    after-keeps IsBalanced s _ h (create_attempt-keeps s h new_id gateway actor dto context)
execute-IsBalanced (accept payment_id provider_reference now) s h =
    after-keeps IsBalanced s _ h (accept_checkout-keeps s h payment_id provider_reference now)
execute-IsBalanced (webhook gateway verified digest context now) s h =
    after-keeps IsBalanced s _ h (handle_webhook-keeps s h gateway verified digest context now)

-- After any commands, where it held before: the attempts of a fee that wait for the provider are as
-- many as its rows that are PAYMENT_PENDING, those that succeeded are as many as its rows that are
-- PAID, each PAID fee has its expected amount as its paid amount, and no two fees and no two
-- attempts share an id.
pub execute_all-IsBalanced :
    (commands : List Command) (s : Store) → IsBalanced s → IsBalanced (execute_all commands s)
unfolding execute_all
execute_all-IsBalanced [] s h = h
execute_all-IsBalanced (command ∷ commands) s h =
    execute_all-IsBalanced commands (execute command s) (execute-IsBalanced command s h)

waiting_or_paid :
    (fees : List ShippingFeeTransaction) (fee_id : ℕ)
    → count_where (is_waiting fee_id) fees + count_where (is_paid fee_id) fees
      ≤ count_where (λ row. row.id == fee_id) fees
unfolding count_where
waiting_or_paid [] fee_id = omega arith
waiting_or_paid (fee ∷ fees) fee_id = ground (arith, waiting_or_paid fees fee_id)

-- After any commands from books that balance, a fee has at most one attempt that succeeded or is
-- still active: it is not paid twice, and nothing is started for a fee that is paid.
pub execute_all-one_attempt :
    (commands : List Command) (s : Store) (fee_id : ℕ)
    → IsBalanced s
    → count_where (is_active_of fee_id) (execute_all commands s).payments
        + count_where (is_success_of fee_id) (execute_all commands s).payments
      ≤ 1
execute_all-one_attempt commands s fee_id h =
    let after_all = execute_all-IsBalanced commands s h in
    omega (
      arith,
      after_all.waiting fee_id,
      after_all.paid fee_id,
      after_all.unique_fees fee_id,
      waiting_or_paid (execute_all commands s).fees fee_id,
    )
