-- ===== src/Payments/Keeps.antt =====
-- `create` of ShippingFeePaymentsService keeps the books.
use project_logictic.Prelude.{
  ℕ, ◌≡◌, refl, false, Option, none, some, arith, inl, inr, Option-cases, count_where, update_many,
  any_of, ◌++◌, [], ◌∷◌,
}
use project_logictic.Prelude.Eq.{◌==◌, nat_eq}
use project_logictic.Text.{Text}
use project_logictic.Store.{
  Store, Shipment, ShippingFeeTransaction, ShippingFeePayment, Actor, ClientContext, Ensures,
}
use project_logictic.Fees.Table.{fee_by_id}
use project_logictic.Payments.Checks.{Gateway, update_payments, payment_by_id, is_active}
use project_logictic.Payments.Create.{
  CreatePayment, requested_payment, create_retry, start_where, start_data, new_payment,
  insert_payment, create_new, create_or_retry, owned_by, fee_of_shipment, create_attempt,
  accept_where, accept_data, accept_checkout,
}
use project_logictic.Payments.Balance.{Balanced, IsBalanced, start-Balanced, accept-Balanced}

module _ (s : Store) (balanced : IsBalanced s) where
  started :
      (new_id : ℕ) (gateway : Gateway) (actor : Actor) (fee : ShippingFeeTransaction)
      (dto : CreatePayment)
      → any_of (λ row. row.id == new_id) s.payments ≡ false
      → count_where (start_where fee) s.fees ≡ 1
      → Balanced
          (update_many (start_where fee) start_data s.fees)
          (s.payments ++ (new_payment new_id gateway actor fee dto ∷ []))
  unfolding new_payment start_where start_data
  started new_id gateway actor fee dto fresh one =
      start-Balanced balanced (new_payment new_id gateway actor fee dto) (start_where fee)
        start_data refl fresh one (λ row passes. ground arith) (λ row. (refl, refl))

  create_new-keeps :
      (new_id : ℕ) (gateway : Gateway) (actor : Actor) (shipment : Shipment)
      (fee : ShippingFeeTransaction) (dto : CreatePayment) (context : ClientContext)
      → Ensures (λ r. IsBalanced r.1) (create_new new_id gateway actor shipment fee dto context s)
  unfolding create_new insert_payment
  create_new-keeps new_id gateway actor shipment fee dto context =
      ground (arith, started new_id gateway actor fee dto)

  create_or_retry-keeps :
      (new_id : ℕ) (gateway : Gateway) (actor : Actor) (shipment : Shipment)
      (fee : ShippingFeeTransaction) (dto : CreatePayment) (context : ClientContext)
      (existing : Option ShippingFeePayment)
      → Ensures
          (λ r. IsBalanced r.1)
          (create_or_retry new_id gateway actor shipment fee dto context existing s)
  unfolding create_or_retry create_retry
  create_or_retry-keeps new_id gateway actor shipment fee dto context none =
      create_new-keeps new_id gateway actor shipment fee dto context
  create_or_retry-keeps new_id gateway actor shipment fee dto context (some existing) = ground arith

  -- The first transaction of `create` keeps them.
  pub create_attempt-keeps :
      (new_id : ℕ) (gateway : Gateway) (actor : Actor) (dto : CreatePayment)
      (context : ClientContext)
      → Ensures (λ r. IsBalanced r.1) (create_attempt new_id gateway actor dto context s)
  unfolding create_attempt
  create_attempt-keeps new_id gateway actor dto context =
      elim (Option-cases (owned_by dto.shipment_id actor.id s)) [
        | inl missing ↦ ground arith
        | inr (shipment, e) ↦ elim (Option-cases (fee_of_shipment shipment.id s)) [
          | inl missing ↦ ground arith
          | inr (found, e') ↦ elim (Option-cases (fee_by_id found.id s)) [
            | inl missing ↦ ground arith
            | inr (fee, e'') ↦ ground (
              arith,
              create_or_retry-keeps new_id gateway actor shipment fee dto context
                  (requested_payment fee.id dto.client_request_id s),
            )
          ]
        ]
      ]

  accepted :
      (id : ℕ) (reference : Text) (now : ℕ)
      → count_where (accept_where id) s.payments ≡ 1
      → Balanced s.fees (update_many (accept_where id) (accept_data reference now) s.payments)
  unfolding accept_where accept_data is_active
  accepted id reference now one =
      accept-Balanced balanced (accept_where id) (accept_data reference now) one
        (λ row passes. ground arith) (λ row. (refl, refl, refl))

  -- The second transaction of `create` keeps them.
  pub accept_checkout-keeps :
      (id : ℕ) (reference : Text) (now : ℕ)
      → Ensures (λ r. IsBalanced r.1) (accept_checkout id reference now s)
  unfolding accept_checkout update_payments
  accept_checkout-keeps id reference now = elim (Option-cases (payment_by_id id s)) [
    | inl missing ↦ ground arith
    | inr (current, e) ↦ ground (arith, accepted current.id reference now)
  ]
