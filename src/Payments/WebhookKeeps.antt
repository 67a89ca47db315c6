-- ===== src/Payments/WebhookKeeps.antt =====
-- `handleWebhook` of ShippingFeePaymentsService keeps the books.
use project_logictic.Prelude.{
  ℕ, ◌≡◌, refl, sym, Option, none, some, arith, inl, inr, Option-cases, count_where, update_many,
  find_first-passes, find_first,
}
use mathlib.Core.Path.{subst}
use project_logictic.Prelude.Eq.{◌==◌, nat_eq, nat_beq_iff}
use project_logictic.Text.{Text}
use project_logictic.Schema.{
  ShippingFeeTransactionStatus as FeeStatus, ShippingFeePaymentStatus as PaymentStatus,
}
use project_logictic.Store.{Store, ClientContext, Ensures, Ensures-cases, ShippingFeePaymentEvent}
use project_logictic.Fees.Table.{fee_by_id}
use project_logictic.Payments.Checks.{
  Gateway, PaymentEntity, assert_paid_fee, update_payments, join_payment, assert_payment_ownership,
  assert_fee_snapshot, payment_by_id, is_active,
}
use project_logictic.Payments.Webhook.{
  VerifiedPaymentWebhook, finish_where, succeeded_data, failed_data, paid_where, paid_data,
  reopen_where, reopen_data, succeed_now, fail_now, apply_succeeded_webhook, apply_failed_webhook,
  apply_webhook, process_event, replay_event, known_or_new, handle_verified, handle_webhook,
  payment_by_reference, known_event,
}
use project_logictic.Payments.Balance.{Balanced, IsBalanced, close-Balanced}

module _ (s : Store) (balanced : IsBalanced s) where
  closed :
      (p : PaymentEntity) (webhook : VerifiedPaymentWebhook)
      → payment_by_id p.payment.id s ≡ some p.payment
      → p.fee.id ≡ p.payment.shipping_fee_transaction_id
      → count_where (paid_where p.fee p.payment) s.fees ≡ 1
      → count_where (finish_where p.payment.id) s.payments ≡ 1
      → Balanced
          (update_many (paid_where p.fee p.payment) (paid_data p.payment webhook) s.fees)
          (update_many (finish_where p.payment.id) (succeeded_data p.payment webhook) s.payments)
  unfolding paid_where paid_data finish_where succeeded_data is_active
  closed p webhook found same one pone =
      close-Balanced balanced p.payment FeeStatus.paid PaymentStatus.succeeded
        (paid_where p.fee p.payment) (paid_data p.payment webhook) (finish_where p.payment.id)
        (succeeded_data p.payment webhook) found refl refl refl one pone
        (λ row passes. ground arith) (λ row. (refl, refl)) (λ row passes. ground arith)
        (λ row passes. ground arith) (λ row. (refl, refl, refl))

  reopened :
      (p : PaymentEntity) (webhook : VerifiedPaymentWebhook)
      → payment_by_id p.payment.id s ≡ some p.payment
      → p.fee.id ≡ p.payment.shipping_fee_transaction_id
      → count_where (reopen_where p.fee p.payment) s.fees ≡ 1
      → count_where (finish_where p.payment.id) s.payments ≡ 1
      → Balanced
          (update_many (reopen_where p.fee p.payment) reopen_data s.fees)
          (update_many (finish_where p.payment.id) (failed_data p.payment webhook) s.payments)
  unfolding reopen_where reopen_data finish_where failed_data is_active
  reopened p webhook found same one pone =
      close-Balanced balanced p.payment FeeStatus.pending PaymentStatus.failed
        (reopen_where p.fee p.payment) reopen_data (finish_where p.payment.id)
        (failed_data p.payment webhook) found refl refl refl one pone (λ row passes. ground arith)
        (λ row. (refl, refl)) (λ row passes. ground arith) (λ row passes. ground arith)
        (λ row. (refl, refl, refl))

  module _ (p : PaymentEntity) (webhook : VerifiedPaymentWebhook) (context : ClientContext)
      (found : payment_by_id p.payment.id s ≡ some p.payment)
      (same : p.fee.id ≡ p.payment.shipping_fee_transaction_id) where
    succeed_now-keeps : Ensures (λ r. IsBalanced r.1) (succeed_now p webhook context s)
    unfolding succeed_now update_payments
    succeed_now-keeps = ground (arith, closed p webhook found same)

    fail_now-keeps : Ensures (λ r. IsBalanced r.1) (fail_now p webhook context s)
    unfolding fail_now update_payments
    fail_now-keeps = ground (arith, reopened p webhook found same)

    apply_succeeded-keeps :
        (status : PaymentStatus)
        → Ensures (λ r. IsBalanced r.1) (apply_succeeded_webhook status p webhook context s)
    unfolding apply_succeeded_webhook assert_paid_fee
    apply_succeeded-keeps PaymentStatus.creating = succeed_now-keeps
    apply_succeeded-keeps PaymentStatus.pending = succeed_now-keeps
    apply_succeeded-keeps PaymentStatus.succeeded = ground arith
    apply_succeeded-keeps PaymentStatus.failed = ground arith

    apply_failed-keeps :
        (status : PaymentStatus)
        → Ensures (λ r. IsBalanced r.1) (apply_failed_webhook status p webhook context s)
    unfolding apply_failed_webhook
    apply_failed-keeps PaymentStatus.creating = fail_now-keeps
    apply_failed-keeps PaymentStatus.pending = fail_now-keeps
    apply_failed-keeps PaymentStatus.succeeded = ground arith
    apply_failed-keeps PaymentStatus.failed = ground arith

    apply_webhook-keeps : Ensures (λ r. IsBalanced r.1) (apply_webhook p webhook context s)
    unfolding apply_webhook
    apply_webhook-keeps =
        ground (arith, apply_succeeded-keeps p.payment.status, apply_failed-keeps p.payment.status)

module _ (s : Store) (balanced : IsBalanced s) where
  process_event-keeps :
      (gateway : Gateway) (p : PaymentEntity) (webhook : VerifiedPaymentWebhook) (digest : Text)
      (context : ClientContext) (now : ℕ)
      → payment_by_id p.payment.id s ≡ some p.payment
      → p.fee.id ≡ p.payment.shipping_fee_transaction_id
      → Ensures (λ r. IsBalanced r.1) (process_event gateway p webhook digest context now s)
  unfolding process_event assert_payment_ownership assert_fee_snapshot
  process_event-keeps gateway p webhook digest context now found same =
      elim (Ensures-cases IsBalanced (apply_webhook p webhook context s)
        (apply_webhook-keeps s balanced p webhook context found same)) [
          | inl (a, left, e, holds) ↦ ground arith
          | inr (x, e) ↦ ground arith
        ]

  known_or_new-keeps :
      (gateway : Gateway) (p : PaymentEntity) (webhook : VerifiedPaymentWebhook) (digest : Text)
      (context : ClientContext) (now : ℕ) (known : Option ShippingFeePaymentEvent)
      → payment_by_id p.payment.id s ≡ some p.payment
      → p.fee.id ≡ p.payment.shipping_fee_transaction_id
      → Ensures (λ r. IsBalanced r.1) (known_or_new gateway p webhook digest context now known s)
  unfolding known_or_new replay_event
  known_or_new-keeps gateway p webhook digest context now none found same =
      process_event-keeps gateway p webhook digest context now found same
  known_or_new-keeps gateway p webhook digest context now (some known) found same = ground arith

  -- `handleWebhook` keeps them.
  pub handle_webhook-keeps :
      (gateway : Gateway) (webhook : Option VerifiedPaymentWebhook) (digest : Text)
      (context : ClientContext) (now : ℕ)
      → Ensures (λ r. IsBalanced r.1) (handle_webhook gateway webhook digest context now s)
  unfolding handle_webhook handle_verified join_payment
  handle_webhook-keeps gateway none digest context now = ground arith
  handle_webhook-keeps gateway (some webhook) digest context now =
      elim (Option-cases (payment_by_reference webhook.reference s)) [
        | inl missing ↦ ground arith
        | inr (initial, e) ↦ elim (Option-cases (payment_by_id initial.id s)) [
          | inl missing ↦ ground arith
          | inr (payment, e') ↦
              elim (Option-cases (fee_by_id payment.shipping_fee_transaction_id s)) [
                | inl missing ↦ ground arith
                | inr (fee, e'') ↦
                    elim (Option-cases
                      (find_first (λ row. row.id == fee.shipment_id) s.shipments)) [
                        | inl missing ↦ ground arith
                        | inr (shipment, joined) ↦
                            let same : payment.id ≡ initial.id =
                              (nat_beq_iff payment.id initial.id).0
                                (find_first-passes (λ row. row.id == initial.id) s.payments e') in
                            let found : payment_by_id payment.id s ≡ some payment =
                              subst (λ k. payment_by_id k s ≡ some payment) (sym same) e' in
                            let owed : fee.id ≡ payment.shipping_fee_transaction_id =
                              (nat_beq_iff fee.id payment.shipping_fee_transaction_id).0 (
                                find_first-passes
                                  (λ row. row.id == payment.shipping_fee_transaction_id) s.fees
                                  e'') in
                            ground (
                              arith,
                              known_or_new-keeps gateway
                                  record { payment = payment; fee = fee; shipment = shipment }
                                  webhook digest context now
                                  (known_event gateway.provider_code webhook.event_id s) found owed,
                            )
                      ]
              ]
        ]
      ]
