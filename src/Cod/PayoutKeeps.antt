-- ===== src/Cod/PayoutKeeps.antt =====
-- The payout commands of CodService keep what holds of all cash on delivery.
use project_logictic.Prelude.{
  ℕ, ◌≡◌, refl, sym, ap, Bool, Option, none, some, arith, find_first-passes, inl, inr, Option-cases,
}
use mathlib.Core.Path.{subst}
use project_logictic.Prelude.Eq.{◌==◌, nat_eq, nat_beq_iff}
use project_logictic.Text.{Text}
use project_logictic.Schema.{CodTransactionStatus}
use project_logictic.Store.{Store, CodTransaction, CodPayout, Actor, ClientContext, Ensures}
use project_logictic.Cod.Checks.{cod_by_id, payout_by_id, non_empty, trimmed}
use project_logictic.Cod.Payout.{
  CreatePayout, new_payout, payout_new, payout_existing, payout_retry, create_payout, payout_of_cod,
  shipment_by_id, send_where, send_data, send_now, send_payout, acknowledge_where, acknowledge_data,
  acknowledge_now, acknowledge_payout,
}
use project_logictic.Cod.Guards.{full_amount}
use project_logictic.Cod.Invariant.{StoreIsValid, add_payout-CodIsValid, update_payouts-CodIsValid}

send_same_cod :
    (admin now : ℕ) (row : CodPayout)
    → (send_data admin now row).cod_transaction_id ≡ row.cod_transaction_id
unfolding send_data
send_same_cod admin now row = refl

send_same_amount : (admin now : ℕ) (row : CodPayout) → (send_data admin now row).amount ≡ row.amount
unfolding send_data
send_same_amount admin now row = refl

acknowledge_same_cod :
    (received : Bool) (reason : Option Text) (now : ℕ) (row : CodPayout)
    → (acknowledge_data received reason now row).cod_transaction_id ≡ row.cod_transaction_id
unfolding acknowledge_data
acknowledge_same_cod received reason now row = refl

acknowledge_same_amount :
    (received : Bool) (reason : Option Text) (now : ℕ) (row : CodPayout)
    → (acknowledge_data received reason now row).amount ≡ row.amount
unfolding acknowledge_data
acknowledge_same_amount received reason now row = refl

module _ (s : Store) (valid : StoreIsValid s) where
  payout_new-keeps :
      (new_id : ℕ) (actor : Actor) (cod : CodTransaction) (reference : Option Text)
      (dto : CreatePayout) (context : ClientContext)
      → cod_by_id cod.id s ≡ some cod
      → cod.status ≡ CodTransactionStatus.settled
      → dto.amount ≡ cod.expected_amount
      → payout_of_cod cod.id s ≡ none
      → Ensures (λ r. StoreIsValid r.1) (payout_new new_id actor cod reference dto context s)
  unfolding payout_new
  payout_new-keeps new_id actor cod reference dto context found settled due free =
      elim (Option-cases (shipment_by_id cod.shipment_id s)) [
        | inl missing ↦ ground arith
        | inr (shipment, e) ↦ ground (
          arith,
          add_payout-CodIsValid valid
              (new_payout new_id cod.id shipment.customer_id reference dto actor.id) free
              (cod, found, settled, due),
        )
      ]

  payout_existing-keeps :
      (new_id : ℕ) (actor : Actor) (cod : CodTransaction) (reference : Option Text)
      (dto : CreatePayout) (context : ClientContext) (existing : Option CodPayout)
      → cod_by_id cod.id s ≡ some cod
      → cod.status ≡ CodTransactionStatus.settled
      → dto.amount ≡ cod.expected_amount
      → payout_of_cod cod.id s ≡ existing
      → Ensures
          (λ r. StoreIsValid r.1)
          (payout_existing new_id actor cod reference dto context existing s)
  unfolding payout_existing payout_retry
  payout_existing-keeps new_id actor cod reference dto context none found settled due free =
      payout_new-keeps new_id actor cod reference dto context found settled due free
  payout_existing-keeps new_id actor cod reference dto context (some existing) found settled due e =
      ground arith

  -- `createPayout` keeps it.
  pub create_payout-keeps :
      (new_id : ℕ) (actor : Actor) (id : ℕ) (dto : CreatePayout) (context : ClientContext)
      → Ensures (λ r. StoreIsValid r.1) (create_payout new_id actor id dto context s)
  unfolding create_payout
  create_payout-keeps new_id actor id dto context = elim (Option-cases (cod_by_id id s)) [
    | inl missing ↦ ground arith
    | inr (cod, e) ↦
        let same : cod.id ≡ id =
          (nat_beq_iff cod.id id).0 (find_first-passes (λ row. row.id == id) s.cods e) in
        let found : cod_by_id cod.id s ≡ some cod =
          subst (λ k. cod_by_id k s ≡ some cod) (sym same) e in
        let free : payout_of_cod cod.id s ≡ payout_of_cod id s = ap (λ k. payout_of_cod k s) same in
        ground (
          arith,
          full_amount cod dto.amount,
          payout_existing-keeps new_id actor cod (non_empty (trimmed dto.reference)) dto context
              (payout_of_cod id s) found,
        )
  ]

  send_now-keeps :
      (actor : Actor) (payout : CodPayout) (version now : ℕ) (context : ClientContext)
      → Ensures (λ r. StoreIsValid r.1) (send_now actor payout version now context s)
  unfolding send_now
  send_now-keeps actor payout version now context = ground (
    arith,
    update_payouts-CodIsValid valid (send_where payout.id version) (send_data actor.id now)
        (send_same_cod actor.id now) (send_same_amount actor.id now),
  )

  -- `sendPayout` keeps it.
  pub send_payout-keeps :
      (actor : Actor) (id : ℕ) (reference : Text) (version now : ℕ) (context : ClientContext)
      → Ensures (λ r. StoreIsValid r.1) (send_payout actor id reference version now context s)
  unfolding send_payout
  send_payout-keeps actor id reference version now context =
      elim (Option-cases (payout_by_id id s)) [
        | inl missing ↦ ground arith
        | inr (payout, e) ↦ elim (Option-cases (cod_by_id payout.cod_transaction_id s)) [
          | inl missing ↦ ground arith
          | inr (cod, e') ↦ ground (arith, send_now-keeps actor payout version now context)
        ]
      ]

  acknowledge_now-keeps :
      (actor : Actor) (payout : CodPayout) (version : ℕ) (received : Bool) (reason : Option Text)
      (now : ℕ) (context : ClientContext)
      → Ensures
          (λ r. StoreIsValid r.1)
          (acknowledge_now actor payout version received reason now context s)
  unfolding acknowledge_now
  acknowledge_now-keeps actor payout version received reason now context = ground (
    arith,
    update_payouts-CodIsValid valid (acknowledge_where payout.id actor.id version)
        (acknowledge_data received reason now) (acknowledge_same_cod received reason now)
        (acknowledge_same_amount received reason now),
  )

  -- `acknowledgePayout` keeps it.
  pub acknowledge_payout-keeps :
      (actor : Actor) (id version : ℕ) (reason : Option Text) (received : Bool) (now : ℕ)
      (context : ClientContext)
      → Ensures
          (λ r. StoreIsValid r.1)
          (acknowledge_payout actor id version reason received now context s)
  unfolding acknowledge_payout
  acknowledge_payout-keeps actor id version reason received now context =
      elim (Option-cases (payout_by_id id s)) [
        | inl missing ↦ ground arith
        | inr (payout, e) ↦ elim (Option-cases (cod_by_id payout.cod_transaction_id s)) [
          | inl missing ↦ ground arith
          | inr (cod, e') ↦ ground (
            arith,
            acknowledge_now-keeps actor payout version received (trimmed reason) now context,
          )
        ]
      ]
