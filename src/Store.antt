-- ===== src/Store.antt =====
-- The database that the services share, and a transaction over it. A transaction that throws is
-- rolled back, so it has no state to give.
mod Rows
mod Payments
mod Exceptions
pub use Rows.*
pub use Payments.*
pub use Exceptions.*
use project_logictic.Prelude.{
  ◌≡◌, refl, ◌⊎◌, inl, inr, ℕ, Bool, true, false, Option, none, some, List, [], ◌∷◌, ◌++◌, String,
  if◌then◌else◌, find_first, count_where, update_many,
}
use project_logictic.Prelude.Int.{ℤ}
use project_logictic.Text.{Text}
use project_logictic.Schema.{UserRole}

pub record Store : Type 0 where
  pub users : List User
  pub pricing_configs : List PricingConfig
  pub drivers : List DriverProfile
  pub vehicles : List LineHaulVehicle
  pub warehouses : List Warehouse
  pub shipments : List Shipment
  pub fees : List ShippingFeeTransaction
  pub disputes : List ShippingFeeDispute
  pub cods : List CodTransaction
  pub remittances : List CodRemittance
  pub payouts : List CodPayout
  pub payments : List ShippingFeePayment
  pub payment_events : List ShippingFeePaymentEvent
  pub transfers : List WarehouseTransfer
  pub trips : List LineHaulTrip
  pub trip_transfers : List LineHaulTripTransfer
  pub tracking : List TrackingEvent
  pub notifications : List Notification
  pub notification_deliveries : List NotificationDelivery
  pub audits : List AuditLog

abbrev pub empty_store : Store
empty_store = record {
  users = [];
  pricing_configs = [];
  drivers = [];
  vehicles = [];
  warehouses = [];
  shipments = [];
  fees = [];
  disputes = [];
  cods = [];
  remittances = [];
  payouts = [];
  payments = [];
  payment_events = [];
  transfers = [];
  trips = [];
  trip_transfers = [];
  tracking = [];
  notifications = [];
  notification_deliveries = [];
  audits = [];
}

-- What a call gives.
pub data Result (A : Type 0) : Type 0 where
  err : Exception → Result A
  ok : A → Result A

abbrev pub Tx : Type 0 → Type 0
Tx A = Store → Result (A × Store)

module _ {A : Type 0} where
  abbrev pub throw : Exception → Tx A
  throw e s = err e

  abbrev pub pure : A → Tx A
  pure a s = ok (a, s)

  abbrev pub gets : (Store → A) → Tx A
  gets f s = ok (f s, s)

  -- A row, or the exception where there is none.
  abbrev pub or_throw : Option A → Exception → Tx A
  or_throw none e = throw e
  or_throw (some a) e = pure a

infixl 5 ◌>>◌
infixl 5 ◌>>=◌
-- The second call sees the store that the first one leaves, unless that one throws.
abbrev pub ◌>>=◌ : {A B : Type 0} (call : Tx A) (next : A → Tx B) → Tx B
(call >>= next) s = elim (call s) [ ok (a, left) ↦ next a left | err e ↦ err e ]

abbrev pub ◌>>◌ : {A B : Type 0} (call : Tx A) (next : Tx B) → Tx B
call >> next = call >>= λ ignored. next

abbrev pub throw_if : Bool → Exception → Tx (Unit {0})
throw_if true e s = err e
throw_if false e s = ok (tt, s)

-- An `if` between two ways to go on.
abbrev pub branch : {A : Type 0} → Bool → Tx A → Tx A → Tx A
branch true m k s = m s
branch false m k s = k s

abbrev pub modify : (Store → Store) → Tx (Unit {0})
modify f s = ok (tt, f s)

-- What a call did to the store, or the store itself where it threw.
abbrev pub after : {A : Type 0} → Store → Result (A × Store) → Store
after s (ok (a, s')) = s'
after s (err e) = s

-- The user of the request, and where it came from.
pub record Actor : Type 0 where
  pub id : ℕ
  pub role : UserRole

pub record ClientContext : Type 0 where
  pub ip_address : Option Text
  pub user_agent : Option Text

-- A number of a request: an integer, or a fraction, an infinity or NaN.
pub data Number : Type 0 where
  int : ℤ → Number
  other : Number

abbrev pub audit : AuditLog → Tx (Unit {0})
audit entry = modify (λ s. record s { audits = s.audits ++ (entry ∷ []) })

-- A call throws, or it returns what satisfies the condition.
abbrev pub Ensures {κ} : {A : Type 0} → (A × Store → Type κ) → Result (A × Store) → Type κ
Ensures P (ok r) = P r
Ensures P (err e) = Unit

-- A store keeps what a call to it keeps.
pub after-keeps :
    {A : Type 0} (P : Store → Type 0) (s : Store) (r : Result (A × Store))
    → P s
    → Ensures (λ q. P q.1) r
    → P (after s r)
after-keeps P s (ok (a, s')) h k = k
after-keeps P s (err e) h k = h

-- A call that keeps a condition leaves a store with it, or throws.
pub Ensures-cases :
    {A : Type 0} (P : Store → Type 0) (r : Result (A × Store))
    → Ensures (λ q. P q.1) r
    → ((a : A) × (left : Store) × (r ≡ ok (a, left)) × P left) ⊎ ((e : Exception) × (r ≡ err e))
Ensures-cases P (ok (a, left)) holds = inl (a, left, refl, holds)
Ensures-cases P (err e) holds = inr (e, refl)

pub Ensures-map :
    {A : Type 0} (P Q : A × Store → Type 0) (r : Result (A × Store))
    → ((x : A × Store) → P x → Q x)
    → Ensures P r
    → Ensures Q r
Ensures-map P Q (ok x) step h = step x h
Ensures-map P Q (err e) step h = tt
