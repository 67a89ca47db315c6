-- ===== src/Fees/Schedule.antt =====
-- Requests to the shipping fee service in any interleaving: while a call is between its reads and
-- its guarded update, any other calls may begin and commit.
use project_logictic.Prelude.{
  ℕ, ◌≡◌, ◌++◌, true, Option, List, [], ◌∷◌, arith, All, All-append, Pointwise, Pointwise-Grows,
  Grows, Grows-refl, Grows-trans, Grows-append, Pointwise-All,
}
use project_logictic.Text.{Text}
use project_logictic.Store.{
  Store, ShippingFeeTransaction, Actor, ClientContext, Number, Result, ok, err, Ensures,
}
use project_logictic.Fees.Checks.{ShipmentSnapshot, is_positive_integer}
use project_logictic.Fees.Pending.{pending_fee, create_pending, cancel_pending}
use project_logictic.Fees.Collect.{CollectInput, collect_at}
use project_logictic.Fees.Reconcile.{remit, settle}
use project_logictic.Fees.Dispute.{dispute, resolve_dispute}
use project_logictic.Fees.Custody.{Moves, Custody, Moves-Custody}
use project_logictic.Fees.Refinement.{
  cancel_pending-keeps, collect_at-keeps, remit-keeps, settle-keeps, dispute-keeps,
  resolve_dispute-keeps,
}

pub data Request : Type 0 where
  create : (new_id : ℕ) → ShipmentSnapshot → Request
  collect : CollectInput → Request
  cancel : ShipmentSnapshot → Actor → (at : ℕ) → ClientContext → Request
  remit_fee : Actor → (id : ℕ) → Option Number → (now : ℕ) → ClientContext → Request
  settle_fee : Actor → (id now : ℕ) → ClientContext → Request
  open_dispute : (new_id : ℕ) → Actor → (id : ℕ) → Text → (now : ℕ) → ClientContext → Request
  close_dispute : Actor → (id : ℕ) → Text → (now : ℕ) → ClientContext → Request

-- The database after a transaction. One that throws is rolled back: what is there is what the
-- others have committed.
abbrev pub committed : {A : Type 0} → Store → Result (A × Store) → Store
committed without (ok (a, s)) = s
committed without (err e) = without

-- `createPending` reads nothing, so what is committed within it is there when it inserts.
unfoldable pub perform : (Store → Store) → Request → Store → Store
perform others (create new_id shipment) s =
    committed (others s) (create_pending new_id shipment (others s))
perform others (collect input) s = committed (others s) (collect_at others input s)
perform others (cancel shipment actor at context) s =
    committed (others s) (cancel_pending others shipment actor at context s)
perform others (remit_fee actor id amount now context) s =
    committed (others s) (remit others actor id amount now context s)
perform others (settle_fee actor id now context) s =
    committed (others s) (settle others actor id now context s)
perform others (open_dispute new_id actor id reason now context) s =
    committed (others s) (dispute others new_id actor id reason now context s)
perform others (close_dispute actor id note now context) s =
    committed (others s) (resolve_dispute others actor id note now context s)

-- A call, the calls that commit in the middle of it, and the calls after it.
pub data Schedule : Type 0 where
  done : Schedule
  call : Request → (within : Schedule) → (next : Schedule) → Schedule

unfoldable pub run : Schedule → Store → Store
run done s = s
run (call request within next) s = run next (perform (run within) request s)

committed-keeps :
    {A : Type 0} (P : List ShippingFeeTransaction → Type 0) (without : Store)
    (r : Result (A × Store))
    → P without.fees
    → Ensures (λ q. P q.1.fees) r
    → P (committed without r).fees
committed-keeps P without (ok (a, s)) h k = k
committed-keeps P without (err e) h k = h

-- What the steps and new pending fees keep, every schedule keeps.
module _ (P : List ShippingFeeTransaction → Type 0)
    (closed : (xs ys : List ShippingFeeTransaction) → Pointwise Moves xs ys → P xs → P ys)
    (grown : (xs : List ShippingFeeTransaction) (new_id : ℕ) (shipment : ShipmentSnapshot)
      → is_positive_integer shipment.total_fee ≡ true
      → P xs
      → P (xs ++ (pending_fee new_id shipment ∷ []))) where
  create_pending-keeps :
      (new_id : ℕ) (shipment : ShipmentSnapshot) (s : Store)
      → P s.fees
      → Ensures (λ r. P r.1.fees) (create_pending new_id shipment s)
  unfolding create_pending
  create_pending-keeps new_id shipment s h = ground (arith, grown s.fees new_id shipment)

  perform-keeps :
      (others : Store → Store) (request : Request) (s : Store)
      → P s.fees
      → P (others s).fees
      → P (perform others request s).fees
  unfolding perform
  perform-keeps others (create new_id shipment) s h k =
      committed-keeps P (others s) _ k (create_pending-keeps new_id shipment (others s) k)
  perform-keeps others (collect input) s h k =
      committed-keeps P (others s) _ k (collect_at-keeps P closed others s h k input)
  perform-keeps others (cancel shipment actor at context) s h k =
      committed-keeps P (others s) _ k
        (cancel_pending-keeps P closed others s h k shipment actor at context)
  perform-keeps others (remit_fee actor id amount now context) s h k =
      committed-keeps P (others s) _ k
        (remit-keeps P closed others s h k actor id amount now context)
  perform-keeps others (settle_fee actor id now context) s h k =
      committed-keeps P (others s) _ k (settle-keeps P closed others s h k actor id now context)
  perform-keeps others (open_dispute new_id actor id reason now context) s h k =
      committed-keeps P (others s) _ k
        (dispute-keeps P closed others s h k new_id actor id reason now context)
  perform-keeps others (close_dispute actor id note now context) s h k =
      committed-keeps P (others s) _ k
        (resolve_dispute-keeps P closed others s h k actor id note now context)

  pub run-keeps : (schedule : Schedule) (s : Store) → P s.fees → P (run schedule s).fees
  unfolding run
  run-keeps done s h = h
  run-keeps (call request within next) s h =
      run-keeps next (perform (run within) request s)
        (perform-keeps (run within) request s h (run-keeps within s h))

pending_fee-Custody :
    (new_id : ℕ) (shipment : ShipmentSnapshot)
    → is_positive_integer shipment.total_fee ≡ true
    → Custody (pending_fee new_id shipment)
unfolding pending_fee
pending_fee-Custody new_id shipment h = ground arith

-- In every interleaving of calls of the service, where all fees kept the custody rules before, all
-- fees keep them: the amount due is a positive safe integer; what is collected, and what is remitted,
-- is that amount; the driver who remits is the one who collected; a settled fee has been collected
-- and remitted and names who settled it; and nothing is collected of one that is pending, cancelled,
-- paid or waits for its payment.
pub run-Custody :
    (schedule : Schedule) (s : Store) → All Custody s.fees → All Custody (run schedule s).fees
run-Custody schedule s h =
    run-keeps (All Custody) (Pointwise-All Moves Custody Moves-Custody)
      (λ xs new_id shipment pays all.
        All-append Custody xs _ all (pending_fee-Custody new_id shipment pays, tt))
      schedule s h

-- The steps that lead from one state of a fee to another.
pub data Reaches (fee : ShippingFeeTransaction) : ShippingFeeTransaction → Type 0 where
  here : Reaches fee fee
  then : {a b : ShippingFeeTransaction} → Reaches fee a → Moves a b → Reaches fee b

Reaches-trans : (a b c : ShippingFeeTransaction) → Reaches a b → Reaches b c → Reaches a c
Reaches-trans a b c r here = r
Reaches-trans a b c r (then q m) = then (Reaches-trans a b _ r q) m

Pointwise-Reaches :
    (xs ys : List ShippingFeeTransaction) → Pointwise Moves xs ys → Pointwise Reaches xs ys
Pointwise-Reaches [] [] h = tt
Pointwise-Reaches [] (y ∷ ys) h = h
Pointwise-Reaches (x ∷ xs) [] h = h
Pointwise-Reaches (x ∷ xs) (y ∷ ys) h = (then here h.0, Pointwise-Reaches xs ys h.1)

-- In every interleaving the fees that were there remain, each moved by steps of the custody machine
-- only, and new fees come behind them.
pub run-Reaches : (schedule : Schedule) (s : Store) → Grows Reaches s.fees (run schedule s).fees
run-Reaches schedule s =
    run-keeps (Grows Reaches s.fees)
      (λ xs ys moved h.
        Grows-trans Reaches Reaches-trans s.fees xs ys h
          (Pointwise-Grows Reaches xs ys (Pointwise-Reaches xs ys moved)))
      (λ xs new_id shipment pays h.
        Grows-trans Reaches Reaches-trans s.fees xs _ h
          (Grows-append Reaches (λ fee. here) xs (pending_fee new_id shipment ∷ [])))
      schedule s (Grows-refl Reaches (λ fee. here) s.fees)
