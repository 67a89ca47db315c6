-- ===== src/Cod/Invariant.antt =====
-- What holds of all cash on delivery: what is remitted is what was collected and due, a payout is
-- backed by a settled COD of its amount, and there is one payout and one open handover at most.
use project_logictic.Prelude.{
  ℕ, ◌≡◌, ◌∙◌, ◌≤◌, ◌++◌, Bool, true, false, none, some, List, [], ◌∷◌, arith, All, All-append,
  update_many-All, update_many-All_with, only_one_passes, ap, find_first, count_where, update_many,
  any_of, count_where-append_one, count_where_of_any_of, count_where_of_find_first,
  count_where-update_many_le, find_first-update_many_other,
}
use mathlib.Core.Path.{subst}
use project_logictic.Prelude.Eq.{◌==◌, nat_eq, nat_beq_iff}
use project_logictic.Schema.{CodTransactionStatus}
use project_logictic.Store.{Store, CodTransaction, CodRemittance, CodPayout}
use project_logictic.Cod.Handover.{is_pending_of}

-- What the status of a COD says of its amounts.
abbrev pub AmountsOf : CodTransactionStatus → CodTransaction → Type 0
AmountsOf CodTransactionStatus.remitted cod =
    (cod.collected_amount ≡ some cod.expected_amount)
    × (cod.remitted_amount ≡ some cod.expected_amount)
AmountsOf CodTransactionStatus.settled cod =
    (cod.collected_amount ≡ some cod.expected_amount)
    × (cod.remitted_amount ≡ some cod.expected_amount)
AmountsOf _ cod = Unit

-- A payout rests on a settled COD, of exactly its amount.
abbrev pub IsBacked : List CodTransaction → CodPayout → Type 0
IsBacked cods payout =
    (cod : CodTransaction) × (find_first (λ row. row.id == payout.cod_transaction_id) cods
      ≡ some cod)
    × (cod.status ≡ CodTransactionStatus.settled)
    × (payout.amount ≡ cod.expected_amount)

pub record CodIsValid (cods : List CodTransaction) (remittances : List CodRemittance)
    (payouts : List CodPayout) : Type 0 where
  pub amounts : All (λ cod. AmountsOf cod.status cod) cods
  pub backed : All (IsBacked cods) payouts
  pub paid_once : (cod_id : ℕ) → count_where (λ row. row.cod_transaction_id == cod_id) payouts ≤ 1
  pub unique : (id : ℕ) → count_where (λ row. row.id == id) cods ≤ 1
  pub handed_once : (cod_id : ℕ) → count_where (is_pending_of cod_id) remittances ≤ 1

abbrev pub StoreIsValid : Store → Type 0
StoreIsValid s = CodIsValid s.cods s.remittances s.payouts

-- The COD transactions change, and no settled one does.
All-IsBacked :
    (test : CodTransaction → Bool) (change : CodTransaction → CodTransaction)
    (cods : List CodTransaction)
    → ((row : CodTransaction) → row.status ≡ CodTransactionStatus.settled → test row ≡ false)
    → ((k : ℕ) (row : CodTransaction) → ((change row).id == k) ≡ (row.id == k))
    → (payouts : List CodPayout) → All (IsBacked cods) payouts
    → All (IsBacked (update_many test change cods)) payouts
All-IsBacked test change cods spares same [] h = tt
All-IsBacked test change cods spares same (p ∷ ps) h =
    let (cod, found, settled, amount) = h.0 in
    (
      (
        cod,
        find_first-update_many_other (λ row. row.id == p.cod_transaction_id) test change cods
            (same p.cod_transaction_id) found (spares cod settled),
        settled,
        amount,
      ),
      All-IsBacked test change cods spares same ps h.1,
    )

pending_cod :
    (k : ℕ) (row : CodRemittance) → is_pending_of k row ≡ true → row.cod_transaction_id ≡ k
unfolding is_pending_of
pending_cod k row passes = ground arith

-- A payout that is changed in other columns stays backed.
move-IsBacked :
    (cods : List CodTransaction) (row after : CodPayout)
    → IsBacked cods row
    → after.cod_transaction_id ≡ row.cod_transaction_id
    → after.amount ≡ row.amount
    → IsBacked cods after
move-IsBacked cods row after (cod, found, settled, amount) same_cod same_amount =
    (cod, rw same_cod found, settled, same_amount ∙ amount)

module _ {cods : List CodTransaction} {remittances : List CodRemittance} {payouts : List CodPayout}
    (valid : CodIsValid cods remittances payouts) where
  add_handed :
      (k : ℕ) (new : CodRemittance)
      → any_of (is_pending_of new.cod_transaction_id) remittances ≡ false
      → count_where (is_pending_of k) (remittances ++ (new ∷ [])) ≤ 1
  add_handed k new no_other =
      count_where-append_one (is_pending_of k) remittances new (valid.handed_once k) (λ passes.
        count_where_of_any_of (is_pending_of k) remittances (
          subst (λ c. any_of (is_pending_of c) remittances ≡ false) (pending_cod k new passes)
            no_other))

  add_paid :
      (k : ℕ) (new : CodPayout)
      → find_first (λ row. row.cod_transaction_id == new.cod_transaction_id) payouts ≡ none
      → count_where (λ row. row.cod_transaction_id == k) (payouts ++ (new ∷ [])) ≤ 1
  add_paid k new no_other =
      count_where-append_one (λ row. row.cod_transaction_id == k) payouts new (valid.paid_once k)
        (λ passes.
          count_where_of_find_first (λ row. row.cod_transaction_id == k) payouts
            (subst (λ c. find_first (λ row. row.cod_transaction_id == c) payouts ≡ none)
              ((nat_beq_iff new.cod_transaction_id k).0 passes) no_other))

  pub add_remittance-CodIsValid :
      (new : CodRemittance)
      → any_of (is_pending_of new.cod_transaction_id) remittances ≡ false
      → CodIsValid cods (remittances ++ (new ∷ [])) payouts
  add_remittance-CodIsValid new no_other = record {
    amounts = valid.amounts;
    unique = valid.unique;
    backed = valid.backed;
    paid_once = valid.paid_once;
    handed_once = λ k. add_handed k new no_other;
  }

  pub add_payout-CodIsValid :
      (new : CodPayout)
      → find_first (λ row. row.cod_transaction_id == new.cod_transaction_id) payouts ≡ none
      → IsBacked cods new
      → CodIsValid cods remittances (payouts ++ (new ∷ []))
  add_payout-CodIsValid new no_other is_backed = record {
    amounts = valid.amounts;
    unique = valid.unique;
    backed = All-append (IsBacked cods) payouts (new ∷ []) valid.backed (is_backed, tt);
    paid_once = λ k. add_paid k new no_other;
    handed_once = valid.handed_once;
  }

  -- A change of payouts that keeps their COD and their amount.
  pub update_payouts-CodIsValid :
      (test : CodPayout → Bool) (change : CodPayout → CodPayout)
      → ((row : CodPayout) → (change row).cod_transaction_id ≡ row.cod_transaction_id)
      → ((row : CodPayout) → (change row).amount ≡ row.amount)
      → CodIsValid cods remittances (update_many test change payouts)
  update_payouts-CodIsValid test change same_cod same_amount = record {
    amounts = valid.amounts;
    unique = valid.unique;
    backed =
        update_many-All (IsBacked cods) test change payouts
          (λ row _ h. move-IsBacked cods row (change row) h (same_cod row) (same_amount row))
          valid.backed;
    paid_once = λ k. omega (
      arith,
      valid.paid_once k,
      count_where-update_many_le (λ row. row.cod_transaction_id == k) test change payouts
          (λ row _ passes. rw (← same_cod row) passes),
    );
    handed_once = valid.handed_once;
  }

  pub update_remittances-CodIsValid :
      (test : CodRemittance → Bool) (change : CodRemittance → CodRemittance)
      → ((k : ℕ) (row : CodRemittance)
          → test row ≡ true
          → is_pending_of k (change row) ≡ true
          → is_pending_of k row ≡ true)
      → CodIsValid cods (update_many test change remittances) payouts
  update_remittances-CodIsValid test change closes = record {
    amounts = valid.amounts;
    unique = valid.unique;
    backed = valid.backed;
    paid_once = valid.paid_once;
    handed_once = λ k. omega (
      arith,
      valid.handed_once k,
      count_where-update_many_le (is_pending_of k) test change remittances (closes k),
    );
  }

  -- A change of the COD that was found, which is not settled.
  pub update_cods-CodIsValid :
      (target : CodTransaction) (test : CodTransaction → Bool)
      (change : CodTransaction → CodTransaction)
      → find_first (λ row. row.id == target.id) cods ≡ some target
      → ((row : CodTransaction) → row.status ≡ CodTransactionStatus.settled → test row ≡ false)
      → ((row : CodTransaction) → (change row).id ≡ row.id)
      → ((row : CodTransaction)
          → test row ≡ true
          → ((row.id == target.id) ≡ true → row ≡ target)
          → AmountsOf row.status row
          → AmountsOf (change row).status (change row))
      → CodIsValid (update_many test change cods) remittances payouts
  update_cods-CodIsValid target test change found spares same amounts_stay = record {
    amounts =
        update_many-All_with (λ cod. AmountsOf cod.status cod)
          (λ row. (row.id == target.id) ≡ true → row ≡ target) test change cods amounts_stay
          (only_one_passes (λ row. row.id == target.id) cods target (valid.unique target.id) found)
          valid.amounts;
    backed =
        All-IsBacked test change cods spares (λ k row. ap (λ id. id == k) (same row)) payouts
          valid.backed;
    paid_once = valid.paid_once;
    unique = λ k. omega (
      arith,
      valid.unique k,
      count_where-update_many_le (λ row. row.id == k) test change cods
          (λ row _ passes. rw (← same row) passes),
    );
    handed_once = valid.handed_once;
  }
