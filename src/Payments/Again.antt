-- ===== src/Payments/Again.antt =====
-- A webhook that is delivered again is answered as a duplicate, with the status that the first
-- delivery left, and changes nothing.
use project_logictic.Prelude.{
  ℕ, ◌≡◌, refl, sym, ap, ◌∙◌, ◌||◌, ◌&&◌, Bool, true, false, Option, none, some, List, [], ◌∷◌,
  ◌++◌, arith, inl, inr, Bool-cases, Option-cases, find_first, find_first-passes,
}
use mathlib.Core.Path.{subst}
use project_logictic.Prelude.Eq.{◌==◌, ◌!=◌, nat_eq, nat_beq_iff, list_eq}
use project_logictic.Text.{Text}
use project_logictic.Store.{
  Store, Shipment, ShippingFeeTransaction, ShippingFeePayment, ShippingFeePaymentEvent,
  ClientContext, ok, Ensures, Ensures-map,
}
use project_logictic.Fees.Table.{fee_by_id}
use project_logictic.Payments.Checks.{Gateway, PaymentEntity, payment_by_id, join_payment}
use project_logictic.Payments.Webhook.{
  VerifiedPaymentWebhook, WebhookResult, process_event, replay_event, known_or_new, handle_verified,
  handle_webhook, payment_by_reference, known_event, webhook_event,
}
use project_logictic.Payments.Replay.{
  Kept, SamePayment, SameFee, Processed, process_event-Processed,
}

-- The answer to an event that is known, with the same data.
answered :
    (gateway : Gateway) (webhook : VerifiedPaymentWebhook) (digest : Text) (context : ClientContext)
    (now : ℕ) (left : Store) (initial payment : ShippingFeePayment) (fee : ShippingFeeTransaction)
    (shipment : Shipment) (known : ShippingFeePaymentEvent)
    → payment_by_reference webhook.reference left ≡ some initial
    → (initial.provider != gateway.provider_code) ≡ false
    → payment_by_id initial.id left ≡ some payment
    → fee_by_id payment.shipping_fee_transaction_id left ≡ some fee
    → find_first (λ row. row.id == fee.shipment_id) left.shipments ≡ some shipment
    → known_event gateway.provider_code webhook.event_id left ≡ some known
    → (known.payment_id != payment.id || known.payload_digest != digest) ≡ false
    → handle_webhook gateway (some webhook) digest context now left
      ≡ ok (record { duplicate = true; payment_status = payment.status }, left)
unfolding handle_webhook handle_verified join_payment known_or_new replay_event
answered gateway webhook digest context now left initial payment fee shipment known e1 e2 e3 e4 e5
      e6 e7 =
    ground arith

-- A row behind the others is found where none of them is.
find_first-append_new :
    {A : Type 0} (test : A → Bool) (xs : List A) (x : A)
    → find_first test xs ≡ none
    → test x ≡ true
    → find_first test (xs ++ (x ∷ [])) ≡ some x
unfolding find_first
find_first-append_new test [] x free passes = ground arith
find_first-append_new test (y ∷ ys) x free passes = ground (arith, find_first-append_new test ys x)

Kept-some :
    {A : Type 0} (R : A → A → Type 0) (a : A) (o : Option A)
    → Kept R (some a) o
    → (b : A) × (o ≡ some b) × R a b
Kept-some R a none h = absurd h
Kept-some R a (some b) h = (b, refl, h)

-- A text equals itself.
text_same : (t : Text) → (t == t) ≡ true
text_same t = (list_eq.same_iff t t).1 refl

event_found :
    (gateway : Gateway) (payment : ShippingFeePayment) (webhook : VerifiedPaymentWebhook)
    (digest : Text) (now : ℕ)
    → ((webhook_event gateway payment webhook digest now).provider == gateway.provider_code
        && (webhook_event gateway payment webhook digest now).provider_event_id == webhook.event_id)
      ≡ true
unfolding webhook_event
event_found gateway payment webhook digest now =
    ground (arith, text_same gateway.provider_code, text_same webhook.event_id)

event_same :
    (gateway : Gateway) (payment updated : ShippingFeePayment) (webhook : VerifiedPaymentWebhook)
    (digest : Text) (now : ℕ)
    → updated.id ≡ payment.id
    → ((webhook_event gateway payment webhook digest now).payment_id != updated.id
        || (webhook_event gateway payment webhook digest now).payload_digest != digest)
      ≡ false
unfolding webhook_event
event_same gateway payment updated webhook digest now same = ground (arith, text_same digest)

-- The answer to a second delivery, by what the first one answered and left.
abbrev pub Repeats :
    Gateway
    → VerifiedPaymentWebhook
    → (digest : Text) → (again_context : ClientContext) → (again_now : ℕ) → WebhookResult × Store
    → Type 0
Repeats gateway webhook digest again_context again_now r =
    handle_webhook gateway (some webhook) digest again_context again_now r.1
    ≡ ok (record { duplicate = true; payment_status = r.0.payment_status }, r.1)

module _ (gateway : Gateway) (webhook : VerifiedPaymentWebhook) (digest : Text) (now : ℕ)
    (again_context : ClientContext) (again_now : ℕ) (s : Store) where
  module _ (initial payment : ShippingFeePayment) (fee : ShippingFeeTransaction)
      (shipment : Shipment) (first : payment_by_reference webhook.reference s ≡ some initial)
      (ours : (initial.provider != gateway.provider_code) ≡ false)
      (locked : payment_by_id initial.id s ≡ some payment)
      (owed : fee_by_id payment.shipping_fee_transaction_id s ≡ some fee)
      (carried : find_first (λ row. row.id == fee.shipment_id) s.shipments ≡ some shipment) where
    abbrev entity : PaymentEntity
    entity = record { payment = payment; fee = fee; shipment = shipment }

    Processed-Repeats :
        (r : WebhookResult × Store)
        → known_event gateway.provider_code webhook.event_id s ≡ none
        → Processed gateway entity webhook digest now s r
        → Repeats gateway webhook digest again_context again_now r
    Processed-Repeats r new done =
        let (_, (updated, now_found, answer), kept, same_shipments, same_events) = done in
        let (initial', found', (same_id, same_provider, _)) = Kept-some SamePayment initial _ (
          subst (λ o. Kept SamePayment o (payment_by_reference webhook.reference r.1)) first
            (kept.by_reference webhook.reference)) in
        let itself : payment.id ≡ initial.id =
          (nat_beq_iff payment.id initial.id).0
            (find_first-passes (λ row. row.id == initial.id) s.payments locked) in
        let found : payment_by_id initial.id r.1 ≡ some updated =
          subst (λ k. payment_by_id k r.1 ≡ some updated) itself now_found in
        let (updated', found'', (updated_id, _, updated_fee)) = Kept-some SamePayment payment _ (
          subst (λ o. Kept SamePayment o (payment_by_id initial.id r.1)) locked
            (kept.by_id initial.id)) in
        let (fee', fee_found, same_shipment) = Kept-some SameFee fee _ (
          subst (λ o. Kept SameFee o (fee_by_id payment.shipping_fee_transaction_id r.1)) owed
            (kept.fees_by_id payment.shipping_fee_transaction_id)) in
        let same_row : updated' ≡ updated = cc (sym found'' ∙ found) in
        let test : ShippingFeePaymentEvent → Bool = λ row.
          row.provider == gateway.provider_code && row.provider_event_id == webhook.event_id in
        let event : ShippingFeePaymentEvent = webhook_event gateway payment webhook digest now in
        let recorded : known_event gateway.provider_code webhook.event_id r.1 ≡ some event =
          subst (λ events. find_first test events ≡ some event) (sym same_events)
            (find_first-append_new test s.payment_events event new
              (event_found gateway payment webhook digest now)) in
        let shipped : find_first (λ row. row.id == fee'.shipment_id) r.1.shipments ≡ some shipment =
          subst (λ rows. find_first (λ row. row.id == fee'.shipment_id) rows ≡ some shipment)
            (sym same_shipments)
            (subst (λ k. find_first (λ row. row.id == k) s.shipments ≡ some shipment)
              (sym same_shipment) carried) in
        answered gateway webhook digest again_context again_now r.1 initial' updated' fee' shipment
          event found'
          (subst (λ provider. (provider != gateway.provider_code) ≡ false) (sym same_provider) ours)
          (subst (λ k. payment_by_id k r.1 ≡ some updated') (sym same_id) found'')
          (subst (λ k. fee_by_id k r.1 ≡ some fee') (sym updated_fee) fee_found) shipped recorded
          (event_same gateway payment updated' webhook digest now updated_id)
        ∙ ap (λ status. ok (record { duplicate = true; payment_status = status }, r.1))
            (ap (λ (row : ShippingFeePayment). row.status) same_row ∙ sym answer)

    known_or_new-Repeats :
        (context : ClientContext) (known : Option ShippingFeePaymentEvent)
        → known_event gateway.provider_code webhook.event_id s ≡ known
        → Ensures
            (Repeats gateway webhook digest again_context again_now)
            (known_or_new gateway entity webhook digest context now known s)
    unfolding known_or_new replay_event
    known_or_new-Repeats context none new =
        Ensures-map (Processed gateway entity webhook digest now s)
          (Repeats gateway webhook digest again_context again_now)
          (process_event gateway entity webhook digest context now s) (λ r. Processed-Repeats r new)
          (process_event-Processed gateway entity webhook digest context now s)
    known_or_new-Repeats context (some known) e =
        elim (Bool-cases (known.payment_id != payment.id || known.payload_digest != digest)) [
          | inl other ↦ ground arith
          | inr same ↦
              let answer =
                answered gateway webhook digest again_context again_now s initial payment fee
                  shipment known first ours locked owed carried e same in
              ground arith
        ]

-- A verified webhook that was handled and is delivered again, with the same body, is answered as a
-- duplicate with the status of the first answer, and changes nothing; an event that is known already
-- is answered in this way too.
pub handle_webhook-Repeats :
    (gateway : Gateway) (webhook : VerifiedPaymentWebhook) (digest : Text) (context : ClientContext)
    (now : ℕ) (again_context : ClientContext) (again_now : ℕ) (s : Store)
    → Ensures
        (Repeats gateway webhook digest again_context again_now)
        (handle_webhook gateway (some webhook) digest context now s)
unfolding handle_webhook handle_verified join_payment
handle_webhook-Repeats gateway webhook digest context now again_context again_now s =
    elim (Option-cases (payment_by_reference webhook.reference s)) [
      | inl missing ↦ ground arith
      | inr (initial, first) ↦ elim (Bool-cases (initial.provider != gateway.provider_code)) [
        | inl foreign ↦ ground arith
        | inr ours ↦ elim (Option-cases (payment_by_id initial.id s)) [
          | inl missing ↦ ground arith
          | inr (payment, locked) ↦
              elim (Option-cases (fee_by_id payment.shipping_fee_transaction_id s)) [
                | inl missing ↦ ground arith
                | inr (fee, owed) ↦
                    elim (Option-cases
                      (find_first (λ row. row.id == fee.shipment_id) s.shipments)) [
                        | inl missing ↦ ground arith
                        | inr (shipment, carried) ↦
                            let repeats =
                              known_or_new-Repeats gateway webhook digest now again_context
                                again_now s initial payment fee shipment first ours locked owed
                                carried context
                                (known_event gateway.provider_code webhook.event_id s) refl in
                            ground arith
                      ]
              ]
        ]
      ]
    ]
