-- ===== src/Fees/Table.antt =====
-- The table of shipping fees, and values of its columns in an audit entry.
use project_logictic.Prelude.{ℕ, Bool, Option, none, some, find_first, count_where, update_many}
use project_logictic.Prelude.Int.{ℤ}
use project_logictic.Prelude.Eq.{◌==◌, nat_eq}
use project_logictic.Store.{
  Store, ShippingFeeTransaction, Json, null, Number, int, Tx, pure, gets, modify, ◌>>=◌, ◌>>◌,
}

abbrev pub or_null : {A : Type 0} → (A → Json) → Option A → Json
or_null f none = null
or_null f (some a) = f a

abbrev pub amount_value : Option Number → Option ℤ
amount_value (some (int amount)) = some amount
amount_value _ = none

-- `updateMany`, which returns how many rows it has changed.
abbrev pub update_fees :
    (ShippingFeeTransaction → Bool) → (ShippingFeeTransaction → ShippingFeeTransaction) → Tx ℕ
update_fees test change = do
  count ← gets (λ s. count_where test s.fees)
  modify (λ s. record s { fees = update_many test change s.fees })
  pure count

abbrev pub fee_by_id : ℕ → Store → Option ShippingFeeTransaction
fee_by_id id s = find_first (λ fee. fee.id == id) s.fees
