-- ===== src/Payments/Replay.antt =====
-- A webhook that is delivered again: it is answered as a duplicate, and changes nothing.
use project_logictic.Prelude.{
  ℕ, ◌≡◌, refl, ap, ◌∙◌, Bool, false, Option, none, some, List, [], ◌∷◌, ◌++◌, arith, inl, inr,
  Bool-cases, Option-cases, find_first, update_many,
}
use project_logictic.Prelude.Eq.{◌==◌, nat_eq, list_eq}
use project_logictic.Text.{Text}
use project_logictic.Schema.{ShippingFeePaymentStatus as PaymentStatus}
use project_logictic.Store.{
  Store, ShippingFeeTransaction, ShippingFeePayment, ClientContext, Ensures, Ensures-cases,
}
use project_logictic.Fees.Table.{fee_by_id}
use project_logictic.Payments.Checks.{
  Gateway, PaymentEntity, payment_by_id, assert_paid_fee, update_payments, assert_payment_ownership,
  assert_fee_snapshot,
}
use project_logictic.Payments.Webhook.{
  VerifiedPaymentWebhook, WebhookResult, finish_where, succeeded_data, failed_data, paid_where,
  paid_data, reopen_where, reopen_data, succeed_now, fail_now, apply_succeeded_webhook,
  apply_failed_webhook, apply_webhook, process_event, payment_by_reference, webhook_event,
}

-- What is found is found again after a change, as far as the change keeps it.
abbrev pub Kept : {A : Type 0} → (A → A → Type 0) → Option A → Option A → Type 0
Kept R none none = Unit
Kept R (some a) (some b) = R a b
Kept R _ _ = ⊥

find_first-Kept :
    {A : Type 0} (R : A → A → Type 0) (p test : A → Bool) (f : A → A) (xs : List A)
    → ((x : A) → R x x)
    → ((x : A) → R x (f x))
    → ((x : A) → p (f x) ≡ p x)
    → Kept R (find_first p xs) (find_first p (update_many test f xs))
unfolding find_first update_many
find_first-Kept R p test f [] stays moves same = tt
find_first-Kept R p test f (x ∷ xs) stays moves same = elim (Bool-cases (test x)) [
  | inl passes ↦ elim (Bool-cases (p x)) [
    | inl hit ↦ rw (passes, hit, same x ∙ hit) (moves x)
    | inr miss ↦ rw (passes, miss, same x ∙ miss) (find_first-Kept R p test f xs stays moves same)
  ]
  | inr fails ↦ elim (Bool-cases (p x)) [
    | inl hit ↦ rw (fails, hit) (stays x)
    | inr miss ↦ rw (fails, miss) (find_first-Kept R p test f xs stays moves same)
  ]
]

Kept-refl : {A : Type 0} (R : A → A → Type 0) (o : Option A) → ((x : A) → R x x) → Kept R o o
Kept-refl R none stays = tt
Kept-refl R (some a) stays = stays a

abbrev pub SamePayment : ShippingFeePayment → ShippingFeePayment → Type 0
SamePayment a b =
    (b.id ≡ a.id)
    × (b.provider ≡ a.provider)
    × (b.shipping_fee_transaction_id ≡ a.shipping_fee_transaction_id)

abbrev pub SameFee : ShippingFeeTransaction → ShippingFeeTransaction → Type 0
SameFee a b = b.shipment_id ≡ a.shipment_id

-- What a webhook keeps of the payments and the fees.
pub record Carried (s : Store) (payments : List ShippingFeePayment)
    (fees : List ShippingFeeTransaction) : Type 0 where
  pub by_reference :
      (reference : ℕ)
      → Kept SamePayment
          (payment_by_reference reference s)
          (find_first (λ row. row.reference == reference) payments)
  pub by_id :
      (id : ℕ) → Kept SamePayment (payment_by_id id s) (find_first (λ row. row.id == id) payments)
  pub fees_by_id : (id : ℕ) → Kept SameFee (fee_by_id id s) (find_first (λ row. row.id == id) fees)

abbrev pub Follows : Store → Store → Type 0
Follows s left =
    Carried s left.payments left.fees
    × (left.shipments ≡ s.shipments)
    × (left.payment_events ≡ s.payment_events)

Carried-refl : (s : Store) → Carried s s.payments s.fees
Carried-refl s = record {
  by_reference = λ k. Kept-refl SamePayment (payment_by_reference k s) (λ row. (refl, refl, refl));
  by_id = λ k. Kept-refl SamePayment (payment_by_id k s) (λ row. (refl, refl, refl));
  fees_by_id = λ k. Kept-refl SameFee (fee_by_id k s) (λ row. refl);
}

-- The two updates of a webhook.
updated-Carried :
    (s : Store) (ptest : ShippingFeePayment → Bool)
    (pchange : ShippingFeePayment → ShippingFeePayment) (test : ShippingFeeTransaction → Bool)
    (change : ShippingFeeTransaction → ShippingFeeTransaction)
    → ((row : ShippingFeePayment)
        → SamePayment row (pchange row) × ((pchange row).reference ≡ row.reference))
    → ((row : ShippingFeeTransaction) → SameFee row (change row) × ((change row).id ≡ row.id))
    → Carried s (update_many ptest pchange s.payments) (update_many test change s.fees)
updated-Carried s ptest pchange test change psame same = record {
  by_reference = λ k.
      find_first-Kept SamePayment (λ row. row.reference == k) ptest pchange s.payments
        (λ row. (refl, refl, refl)) (λ row. (psame row).0) (λ row. ap (λ i. i == k) (psame row).1);
  by_id = λ k.
      find_first-Kept SamePayment (λ row. row.id == k) ptest pchange s.payments
        (λ row. (refl, refl, refl)) (λ row. (psame row).0)
        (λ row. let (id, _, _) = (psame row).0 in ap (λ i. i == k) id);
  fees_by_id = λ k.
      find_first-Kept SameFee (λ row. row.id == k) test change s.fees (λ row. refl)
        (λ row. (same row).0) (λ row. ap (λ i. i == k) (same row).1);
}

module _ (s : Store) (p : PaymentEntity) (webhook : VerifiedPaymentWebhook)
    (context : ClientContext) where
  succeeded_Carried :
      Carried s
        (update_many (finish_where p.payment.id) (succeeded_data p.payment webhook) s.payments)
        (update_many (paid_where p.fee p.payment) (paid_data p.payment webhook) s.fees)
  unfolding succeeded_data paid_data
  succeeded_Carried =
      updated-Carried s (finish_where p.payment.id) (succeeded_data p.payment webhook)
        (paid_where p.fee p.payment) (paid_data p.payment webhook)
        (λ row. ((refl, refl, refl), refl)) (λ row. (refl, refl))

  failed_Carried :
      Carried s
        (update_many (finish_where p.payment.id) (failed_data p.payment webhook) s.payments)
        (update_many (reopen_where p.fee p.payment) reopen_data s.fees)
  unfolding failed_data reopen_data
  failed_Carried =
      updated-Carried s (finish_where p.payment.id) (failed_data p.payment webhook)
        (reopen_where p.fee p.payment) reopen_data (λ row. ((refl, refl, refl), refl))
        (λ row. (refl, refl))

  succeed_now-Follows : Ensures (λ r. Follows s r.1) (succeed_now p webhook context s)
  unfolding succeed_now update_payments
  succeed_now-Follows = ground (arith, succeeded_Carried)

  fail_now-Follows : Ensures (λ r. Follows s r.1) (fail_now p webhook context s)
  unfolding fail_now update_payments
  fail_now-Follows = ground (arith, failed_Carried)

  apply_succeeded-Follows :
      (status : PaymentStatus)
      → Ensures (λ r. Follows s r.1) (apply_succeeded_webhook status p webhook context s)
  unfolding apply_succeeded_webhook assert_paid_fee
  apply_succeeded-Follows PaymentStatus.creating = succeed_now-Follows
  apply_succeeded-Follows PaymentStatus.pending = succeed_now-Follows
  apply_succeeded-Follows PaymentStatus.succeeded = ground (arith, Carried-refl s)
  apply_succeeded-Follows PaymentStatus.failed = ground arith

  apply_failed-Follows :
      (status : PaymentStatus)
      → Ensures (λ r. Follows s r.1) (apply_failed_webhook status p webhook context s)
  unfolding apply_failed_webhook
  apply_failed-Follows PaymentStatus.creating = fail_now-Follows
  apply_failed-Follows PaymentStatus.pending = fail_now-Follows
  apply_failed-Follows PaymentStatus.succeeded = ground arith
  apply_failed-Follows PaymentStatus.failed = ground (arith, Carried-refl s)

  pub apply_webhook-Follows : Ensures (λ r. Follows s r.1) (apply_webhook p webhook context s)
  unfolding apply_webhook
  apply_webhook-Follows =
      ground
        (arith, apply_succeeded-Follows p.payment.status, apply_failed-Follows p.payment.status)

-- What a new webhook leaves: its payment with the status that it answers, and its event behind the
-- others.
abbrev pub Processed :
    Gateway
    → PaymentEntity
    → VerifiedPaymentWebhook
    → Text
    → ℕ
    → Store
    → WebhookResult × Store
    → Type 0
Processed gateway p webhook digest now s r =
    (r.0 ≡ record { duplicate = false; payment_status = r.0.payment_status })
    × ((updated : ShippingFeePayment) × (payment_by_id p.payment.id r.1 ≡ some updated)
        × (r.0.payment_status ≡ updated.status))
    × Carried s r.1.payments r.1.fees
    × (r.1.shipments ≡ s.shipments)
    × (r.1.payment_events
        ≡ s.payment_events ++ (webhook_event gateway p.payment webhook digest now ∷ []))

pub process_event-Processed :
    (gateway : Gateway) (p : PaymentEntity) (webhook : VerifiedPaymentWebhook) (digest : Text)
    (context : ClientContext) (now : ℕ) (s : Store)
    → Ensures
        (Processed gateway p webhook digest now s)
        (process_event gateway p webhook digest context now s)
unfolding process_event assert_payment_ownership assert_fee_snapshot
process_event-Processed gateway p webhook digest context now s =
    elim (Ensures-cases (Follows s) (apply_webhook p webhook context s)
      (apply_webhook-Follows s p webhook context)) [
        | inl (a, left, e, holds) ↦ elim (Option-cases (payment_by_id p.payment.id left)) [
          | inl missing ↦ ground arith
          | inr (updated, e') ↦
              let (carried, same_shipments, same_events) = holds in
              let done : Processed gateway p webhook digest now s (
                record { duplicate = false; payment_status = updated.status },
                record left {
                  payment_events =
                      left.payment_events
                      ++ (webhook_event gateway p.payment webhook digest now ∷ []);
                },
              ) =
                (
                  refl,
                  (updated, e', refl),
                  carried,
                  same_shipments,
                  ap (λ events. events ++ (webhook_event gateway p.payment webhook digest now ∷ []))
                      same_events,
                ) in
              ground arith
        ]
        | inr (x, e) ↦ ground arith
      ]
