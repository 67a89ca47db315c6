-- ===== src/Cod/HandoverKeeps.antt =====
-- The handover commands of CodService keep what holds of all cash on delivery.
use project_logictic.Prelude.{
  ℕ, ◌≡◌, sym, Bool, true, false, Option, some, arith, find_first-passes, update_many, inl, inr,
  Option-cases,
}
use project_logictic.Prelude.Int.{ℤ}
use project_logictic.Prelude.Eq.{◌==◌, nat_eq, nat_beq_iff}
use mathlib.Core.Path.{subst}
use project_logictic.Text.{Text}
use project_logictic.Store.{Store, CodTransaction, CodRemittance, Actor, ClientContext, Ensures}
use project_logictic.Fees.Audit.{driver_of_user}
use project_logictic.Cod.Checks.{is_full_amount, cod_by_id, remittance_by_id, trimmed}
use project_logictic.Cod.Handover.{
  SubmitRemittance, cod_of_shipment, new_remittance, remit_new, remit_retry, remit, review_where,
  review_data, remitted_where, remitted_data, confirm_handover, review_now, review_remittance,
  settle_where, settle_data, settle,
}
use project_logictic.Cod.Guards.{
  review_closes, settle_spares, settle_same_id, settle_amounts, remitted_spares, remitted_same_id,
  remitted_amounts,
}
use project_logictic.Cod.Invariant.{
  CodIsValid, StoreIsValid, add_remittance-CodIsValid, update_remittances-CodIsValid,
  update_cods-CodIsValid,
}

module _ (s : Store) (valid : StoreIsValid s) where
  remit_new-keeps :
      (new_id : ℕ) (actor : Actor) (cod : CodTransaction) (driver : ℕ) (dto : SubmitRemittance)
      (context : ClientContext)
      → Ensures (λ r. StoreIsValid r.1) (remit_new new_id actor cod driver dto context s)
  unfolding remit_new
  remit_new-keeps new_id actor cod driver dto context =
      ground (arith, add_remittance-CodIsValid valid (new_remittance new_id cod driver dto))

  -- `remit` keeps it.
  pub remit-keeps :
      (new_id : ℕ) (actor : Actor) (shipment : ℕ) (dto : SubmitRemittance) (context : ClientContext)
      → Ensures (λ r. StoreIsValid r.1) (remit new_id actor shipment dto context s)
  unfolding remit remit_retry
  remit-keeps new_id actor shipment dto context = elim (Option-cases (cod_of_shipment shipment s)) [
    | inl missing ↦ ground arith
    | inr (found, e) ↦ elim (Option-cases (cod_by_id found.id s)) [
      | inl missing ↦ ground arith
      | inr (cod, e') ↦ elim (Option-cases (driver_of_user actor.id s)) [
        | inl missing ↦ ground arith
        | inr (driver, e'') ↦ ground (arith, remit_new-keeps new_id actor cod driver.id dto context)
      ]
    ]
  ]

  -- A COD found by its id is found by its own.
  found_self :
      (id : ℕ) (cod : CodTransaction) → cod_by_id id s ≡ some cod → cod_by_id cod.id s ≡ some cod
  found_self id cod e =
      subst (λ k. cod_by_id k s ≡ some cod)
        (sym ((nat_beq_iff cod.id id).0 (find_first-passes (λ row. row.id == id) s.cods e))) e

  settled_cods :
      (id now : ℕ) (cod : CodTransaction)
      → cod_by_id id s ≡ some cod
      → CodIsValid (update_many (settle_where cod) (settle_data now) s.cods) s.remittances s.payouts
  settled_cods id now cod e =
      update_cods-CodIsValid valid cod (settle_where cod) (settle_data now) (found_self id cod e)
        (λ row settled. settle_spares cod row settled) (λ row. settle_same_id now row)
        (λ row passes _ amounts. settle_amounts cod now row passes amounts)

  -- `settle` keeps it.
  pub settle-keeps :
      (actor : Actor) (id now : ℕ) (context : ClientContext)
      → Ensures (λ r. StoreIsValid r.1) (settle actor id now context s)
  unfolding settle
  settle-keeps actor id now context = elim (Option-cases (cod_by_id id s)) [
    | inl missing ↦ ground arith
    | inr (cod, e) ↦ ground (arith, settled_cods id now cod e)
  ]

  -- The handover is confirmed or rejected; the COD is as it was.
  reviewed :
      (id version : ℕ) (confirm : Bool) (admin : ℕ) (reason : Option Text) (now : ℕ)
      → CodIsValid s.cods
          (update_many
            (review_where id version)
            (review_data confirm admin reason now)
            s.remittances)
          s.payouts
  reviewed id version confirm admin reason now =
      update_remittances-CodIsValid valid (review_where id version)
        (review_data confirm admin reason now) (review_closes id version confirm admin reason now)

  -- The handover is confirmed, and the COD remitted.
  confirmed :
      (id version : ℕ) (admin : ℕ) (reason : Option Text) (now : ℕ) (cod : CodTransaction)
      (amount : ℤ)
      → cod_by_id cod.id s ≡ some cod
      → is_full_amount cod (some amount) ≡ true
      → CodIsValid
          (update_many (remitted_where cod) (remitted_data amount now) s.cods)
          (update_many (review_where id version) (review_data true admin reason now) s.remittances)
          s.payouts
  confirmed id version admin reason now cod amount found full =
      update_cods-CodIsValid (reviewed id version true admin reason now) cod (remitted_where cod)
        (remitted_data amount now) found (λ row settled. remitted_spares cod row settled)
        (λ row. remitted_same_id amount now row)
        (λ row passes same _. remitted_amounts cod amount now row full passes same)

  review_now-keeps :
      (actor : Actor) (cod : CodTransaction) (row : CodRemittance) (version : ℕ) (confirm : Bool)
      (reason : Option Text) (now : ℕ) (context : ClientContext)
      → cod_by_id cod.id s ≡ some cod
      → is_full_amount cod (some row.amount) ≡ true
      → Ensures
          (λ r. StoreIsValid r.1)
          (review_now actor cod row version confirm reason now context s)
  unfolding review_now confirm_handover
  review_now-keeps actor cod row version true reason now context found full =
      ground (arith, confirmed row.id version actor.id reason now cod row.amount found full)
  review_now-keeps actor cod row version false reason now context found full =
      ground (arith, reviewed row.id version false actor.id reason now)

  -- `reviewRemittance` keeps it.
  pub review_remittance-keeps :
      (actor : Actor) (id version : ℕ) (reason : Option Text) (confirm : Bool) (now : ℕ)
      (context : ClientContext)
      → Ensures
          (λ r. StoreIsValid r.1)
          (review_remittance actor id version reason confirm now context s)
  unfolding review_remittance
  review_remittance-keeps actor id version reason confirm now context =
      elim (Option-cases (remittance_by_id id s)) [
        | inl missing ↦ ground arith
        | inr (row, e) ↦ elim (Option-cases (cod_by_id row.cod_transaction_id s)) [
          | inl missing ↦ ground arith
          | inr (cod, e') ↦ ground (
            arith,
            review_now-keeps actor cod row version confirm (trimmed reason) now context
                (found_self row.cod_transaction_id cod e'),
          )
        ]
      ]
