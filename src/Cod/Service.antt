-- ===== src/Cod/Service.antt =====
-- Any sequence of commands to CodService.
use project_logictic.Prelude.{ℕ, Bool, Option, List, [], ◌∷◌}
use project_logictic.Text.{Text}
use project_logictic.Store.{Store, Actor, ClientContext, after, after-keeps}
use project_logictic.Cod.Handover.{SubmitRemittance, remit, review_remittance, settle}
use project_logictic.Cod.Payout.{CreatePayout, create_payout, send_payout, acknowledge_payout}
use project_logictic.Cod.Invariant.{StoreIsValid}
use project_logictic.Cod.HandoverKeeps.{remit-keeps, review_remittance-keeps, settle-keeps}
use project_logictic.Cod.PayoutKeeps.{
  create_payout-keeps, send_payout-keeps, acknowledge_payout-keeps,
}

pub data Command : Type 0 where
  submit : (new_id : ℕ) → Actor → (shipment_id : ℕ) → SubmitRemittance → ClientContext → Command
  review :
      Actor
      → (id version : ℕ) → Option Text
      → (confirm : Bool) → (now : ℕ) → ClientContext
      → Command
  settle_cod : Actor → (id now : ℕ) → ClientContext → Command
  open_payout : (new_id : ℕ) → Actor → (cod_id : ℕ) → CreatePayout → ClientContext → Command
  send : Actor → (id : ℕ) → Text → (version now : ℕ) → ClientContext → Command
  acknowledge :
      Actor
      → (id version : ℕ) → Option Text
      → (received : Bool) → (now : ℕ) → ClientContext
      → Command

-- The database after a command; one that throws changes nothing.
unfoldable pub execute : Command → Store → Store
execute (submit new_id actor shipment_id dto context) s =
    after s (remit new_id actor shipment_id dto context s)
execute (review actor id version reason confirm now context) s =
    after s (review_remittance actor id version reason confirm now context s)
execute (settle_cod actor id now context) s = after s (settle actor id now context s)
execute (open_payout new_id actor cod_id dto context) s =
    after s (create_payout new_id actor cod_id dto context s)
execute (send actor id reference version now context) s =
    after s (send_payout actor id reference version now context s)
execute (acknowledge actor id version reason received now context) s =
    after s (acknowledge_payout actor id version reason received now context s)

unfoldable pub execute_all : List Command → Store → Store
execute_all [] s = s
execute_all (command ∷ commands) s = execute_all commands (execute command s)

execute-StoreIsValid :
    (command : Command) (s : Store) → StoreIsValid s → StoreIsValid (execute command s)
unfolding execute
execute-StoreIsValid (submit new_id actor shipment_id dto context) s h =
    after-keeps StoreIsValid s _ h (remit-keeps s h new_id actor shipment_id dto context)
execute-StoreIsValid (review actor id version reason confirm now context) s h =
    after-keeps StoreIsValid s _ h
      (review_remittance-keeps s h actor id version reason confirm now context)
execute-StoreIsValid (settle_cod actor id now context) s h =
    after-keeps StoreIsValid s _ h (settle-keeps s h actor id now context)
execute-StoreIsValid (open_payout new_id actor cod_id dto context) s h =
    after-keeps StoreIsValid s _ h (create_payout-keeps s h new_id actor cod_id dto context)
execute-StoreIsValid (send actor id reference version now context) s h =
    after-keeps StoreIsValid s _ h (send_payout-keeps s h actor id reference version now context)
execute-StoreIsValid (acknowledge actor id version reason received now context) s h =
    after-keeps StoreIsValid s _ h
      (acknowledge_payout-keeps s h actor id version reason received now context)

-- After any commands, where it held before: each payout rests on a settled COD of exactly its
-- amount; a remitted or settled COD was collected and remitted in full; no two CODs share an id; and
-- no COD has two payouts, or two handovers that wait for a review.
pub execute_all-StoreIsValid :
    (commands : List Command) (s : Store) → StoreIsValid s → StoreIsValid (execute_all commands s)
unfolding execute_all
execute_all-StoreIsValid [] s h = h
execute_all-StoreIsValid (command ∷ commands) s h =
    execute_all-StoreIsValid commands (execute command s) (execute-StoreIsValid command s h)
