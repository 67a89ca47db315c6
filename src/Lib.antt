-- ===== src/Lib.antt =====
-- Logictic, the delivery platform: its core rules, translated from the NestJS backend (backend/src),
-- with the theorems that they satisfy.
--
-- The backend keeps shipments, the money that drivers collect for them, and the transfers that move
-- them between warehouses in one PostgreSQL database. Its services are handlers that read rows,
-- check them, and write with guarded `updateMany` calls inside one transaction. A shipment's fee is
-- collected from its sender or its receiver by a driver, remitted, and settled by an administrator;
-- the cash on delivery is handed over, reviewed, settled and paid out; a transfer is dispatched
-- alone or with a line-haul trip, whose manifest must fit its vehicle.
--
-- The files, and the code that they translate (below backend/src/modules unless said otherwise):
--   Prelude, Text         shared types, tests and lemmas on lists; strings and `trim`
--   Schema                the enumerations of backend/prisma/schema.prisma
--   Store                 its tables, the exceptions and a transaction: a function from a store to a
--                         result, which is an exception (the transaction is rolled back) or a value
--                         with the store after it
--   Fees                  shipping-fees/shipping-fees.service.ts: Pending (createPending,
--                         cancelPending), Collect (collectAt), Reconcile (remit, settle), Dispute
--                         (dispute, resolveDispute), Checks (the assertions); Custody is the state
--                         machine of one fee, Steps and Refinement relate the code to it, Schedule
--                         has the interleavings
--   Payments              shipping-fees/payments/shipping-fee-payments.service.ts: Create (the two
--                         transactions of `create`), Webhook (handleWebhook), Checks (the
--                         assertions); Balance is what holds of fees and attempts, Keeps and
--                         WebhookKeeps that each transaction keeps it, Service any sequence of them;
--                         Replay and Again follow a webhook that comes twice
--   Cod                   cod/cod.service.ts: Handover (remit, reviewRemittance, settle), Payout
--                         (createPayout, sendPayout, acknowledgePayout), Checks; Invariant is what
--                         holds of the tables, Service any sequence of commands
--   Pricing               pricing/pricing.service.ts: Quote (calculate), Configs (createConfig, the active
--                         configuration, quote); Bounds and Activation have the theorems
--   LineHaul              line-haul/line-haul-capacity.ts (Capacity) and line-haul.policy.ts
--                         (Policy); Manifest has the theorems. Planning is
--                         line-haul-planning.policy.ts: Rules and Score have its functions, Windows,
--                         Selection, Best and Optimal the theorems. Of line-haul-trips.service.ts,
--                         Booking and Commands have setSchedule, unschedule and cancel, Loading
--                         assignTransfer and removeTransfer; Booked and Planned are what holds of
--                         the trips and their manifests, Effects what the commands of a schedule
--                         leave, PlannedKeeps and LoadingKeeps that all commands keep it, Fits the
--                         capacity, Service any sequence of commands; History is the state machine
--                         of one trip, Carried what the trip of an active assignment is
--   Shipments             assignments/shipment-transition.policy.ts, shipments/cancellation.policy.ts
--   Transfers             warehouses/warehouse-transfer-flow.policy.ts and
--                         warehouse-transfer-lifecycle.service.ts: Dispatch, Receive, which also has
--                         createIdempotent of notifications/notifications.service.ts; Placement,
--                         Guards, Arrivals and, with Deliveries, Notified have the theorems
--   Tests                 concrete inputs
--
-- Names are those of the source in snake case. Ids are numbers, as they are only compared; an `Int`
-- column that can hold an amount is an integer; a date is a number of milliseconds. A number of a
-- request that is no integer is `other`. Time and new ids are arguments of the handlers.
--
-- Concurrency. The database runs the transactions at READ COMMITTED. A handler of Fees or Transfers
-- takes an argument `others : Store → Store`, which stands for all that other transactions commit
-- between its reads and its guarded updates. A schedule of Fees nests such calls, so that the
-- theorems hold for each interleaving of this form. CodService locks the row of the COD first, and the
-- payment service the rows of the fee and of the payment, so their commands are taken one after another;
-- so are the planning commands of LineHaulTripsService, which locks the rows of the trip, its driver,
-- its vehicle and the transfer; and createConfig of PricingService is Serializable.
--
-- Fuel: the loop over the departure windows takes one round more than the latest end has milliseconds,
-- and each round moves the start, so it ends by its own test. The other loops are structural
-- recursion on lists. `localeCompare`, and the percentage of a load rounded to tenths, are parameters
-- of the planner; its theorems ask that the first orders codes and ids.
--
-- Not modelled: the lists and dashboards that only read; the payment provider; the services around
-- assignments, deliveries and warehouses; the creation, departure and arrival of line-haul trips and
-- their routes; utilization percentages, which are floating point numbers; authentication, addresses,
-- routing, what becomes of a notification's deliveries, the HTTP layer, Redis and the web client.
-- Columns that no modelled rule reads or writes, and the names that a response joins to a row, are
-- left out of the rows. A delivery names its notification by the user and the event key, which are
-- unique together, in the place of its id.
pub mod Prelude
pub mod Text
pub mod Schema
pub mod Store
pub mod Fees
pub mod Payments
pub mod Cod
pub mod Pricing
pub mod LineHaul
pub mod Shipments
pub mod Transfers
pub mod Tests
