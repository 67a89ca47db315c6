-- ===== src/LineHaul/Service.antt =====
-- Any sequence of planning commands to LineHaulTripsService.
use project_logictic.Prelude.{ℕ, List, [], ◌∷◌}
use project_logictic.Text.{Text}
use project_logictic.Store.{Store, Actor, ClientContext, after, after-keeps}
use project_logictic.LineHaul.Capacity.{PackageSnapshot}
use project_logictic.LineHaul.Policy.{Date}
use project_logictic.LineHaul.Booking.{ScheduleCommand}
use project_logictic.LineHaul.Commands.{set_schedule, unschedule, cancel}
use project_logictic.LineHaul.Loading.{assign_transfer, remove_transfer}
use project_logictic.LineHaul.Planned.{IsPlanned}
use project_logictic.LineHaul.PlannedKeeps.{set_schedule-keeps, unschedule-keeps, cancel-keeps}
use project_logictic.LineHaul.LoadingKeeps.{assign_transfer-keeps, remove_transfer-keeps}

pub data Command : Type 0 where
  book :
      Actor
      → (id : ℕ) → (start end : Date) → (expected_version : ℕ) → ScheduleCommand
      → ClientContext
      → Command
  give_back : Actor → (id expected_version : ℕ) → ClientContext → Command
  give_up : Actor → (id : ℕ) → (reason : Text) → (now : ℕ) → ClientContext → Command
  load : (new_id : ℕ) → Actor → (id transfer_id : ℕ) → ClientContext → Command
  unload : Actor → (id transfer_id now : ℕ) → ClientContext → Command

-- The database after a command; one that throws changes nothing.
unfoldable pub execute : (ℕ → PackageSnapshot) → Command → Store → Store
execute snapshot (book actor id start end expected_version command context) s =
    after s (set_schedule actor id start end expected_version command context s)
execute snapshot (give_back actor id expected_version context) s =
    after s (unschedule actor id expected_version context s)
execute snapshot (give_up actor id reason now context) s =
    after s (cancel actor id reason now context s)
execute snapshot (load new_id actor id transfer_id context) s =
    after s (assign_transfer snapshot new_id actor id transfer_id context s)
execute snapshot (unload actor id transfer_id now context) s =
    after s (remove_transfer actor id transfer_id now context s)

unfoldable pub execute_all : (ℕ → PackageSnapshot) → List Command → Store → Store
execute_all snapshot [] s = s
execute_all snapshot (command ∷ commands) s =
    execute_all snapshot commands (execute snapshot command s)

execute-IsPlanned :
    (snapshot : ℕ → PackageSnapshot) (command : Command) (s : Store)
    → IsPlanned s
    → IsPlanned (execute snapshot command s)
unfolding execute
execute-IsPlanned snapshot (book actor id start end expected_version command context) s h =
    after-keeps IsPlanned s _ h
      (set_schedule-keeps s h actor id start end expected_version command context)
execute-IsPlanned snapshot (give_back actor id expected_version context) s h =
    after-keeps IsPlanned s _ h (unschedule-keeps s h actor id expected_version context)
execute-IsPlanned snapshot (give_up actor id reason now context) s h =
    after-keeps IsPlanned s _ h (cancel-keeps s h actor id reason now context)
execute-IsPlanned snapshot (load new_id actor id transfer_id context) s h =
    after-keeps IsPlanned s _ h
      (assign_transfer-keeps s h snapshot new_id actor id transfer_id context)
execute-IsPlanned snapshot (unload actor id transfer_id now context) s h =
    after-keeps IsPlanned s _ h (remove_transfer-keeps s h actor id transfer_id now context)

-- After any planning commands, where it held before: no driver and no vehicle is taken by two trips
-- that are not over at one time of their schedules, no transfer is active on two manifests, and no
-- two trips share an id.
pub execute_all-IsPlanned :
    (snapshot : ℕ → PackageSnapshot) (commands : List Command) (s : Store)
    → IsPlanned s
    → IsPlanned (execute_all snapshot commands s)
unfolding execute_all
execute_all-IsPlanned snapshot [] s h = h
execute_all-IsPlanned snapshot (command ∷ commands) s h =
    execute_all-IsPlanned snapshot commands (execute snapshot command s)
      (execute-IsPlanned snapshot command s h)
