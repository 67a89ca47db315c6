-- ===== src/Schema/Accounts.antt =====
-- The enumerations of users, drivers and their assignments (backend/prisma/schema.prisma), with their equality tests.
use project_logictic.Prelude.{ℕ, ◌≡◌, refl, [], ◌∷◌}
use project_logictic.Prelude.Eq.{Eq, enum_eq}
use project_logictic.Schema.Code.{nth}

pub data UserRole : Type 0 where
  customer driver warehouse_staff dispatcher admin : UserRole

abbrev pub user_role_code : UserRole → ℕ
user_role_code UserRole.customer = 0
user_role_code UserRole.driver = 1
user_role_code UserRole.warehouse_staff = 2
user_role_code UserRole.dispatcher = 3
user_role_code UserRole.admin = 4

abbrev pub user_role_of_code : ℕ → UserRole
user_role_of_code = nth UserRole.customer (
    UserRole.customer ∷ UserRole.driver ∷ UserRole.warehouse_staff ∷ UserRole.dispatcher
    ∷ UserRole.admin ∷ [])

pub user_role_inverse : (a : UserRole) → user_role_of_code (user_role_code a) ≡ a
user_role_inverse UserRole.customer = refl
user_role_inverse _ = refl

instance abbrev pub user_role_eq : Eq UserRole
user_role_eq = enum_eq user_role_code user_role_of_code user_role_inverse

pub data UserStatus : Type 0 where
  active suspended : UserStatus

abbrev pub user_status_code : UserStatus → ℕ
user_status_code UserStatus.active = 0
user_status_code UserStatus.suspended = 1

abbrev pub user_status_of_code : ℕ → UserStatus
user_status_of_code = nth UserStatus.active (UserStatus.active ∷ UserStatus.suspended ∷ [])

pub user_status_inverse : (a : UserStatus) → user_status_of_code (user_status_code a) ≡ a
user_status_inverse UserStatus.active = refl
user_status_inverse _ = refl

instance abbrev pub user_status_eq : Eq UserStatus
user_status_eq = enum_eq user_status_code user_status_of_code user_status_inverse

pub data DriverStatus : Type 0 where
  offline available busy suspended : DriverStatus

abbrev pub driver_status_code : DriverStatus → ℕ
driver_status_code DriverStatus.offline = 0
driver_status_code DriverStatus.available = 1
driver_status_code DriverStatus.busy = 2
driver_status_code DriverStatus.suspended = 3

abbrev pub driver_status_of_code : ℕ → DriverStatus
driver_status_of_code = nth DriverStatus.offline (
    DriverStatus.offline ∷ DriverStatus.available ∷ DriverStatus.busy ∷ DriverStatus.suspended ∷ [])

pub driver_status_inverse : (a : DriverStatus) → driver_status_of_code (driver_status_code a) ≡ a
driver_status_inverse DriverStatus.offline = refl
driver_status_inverse _ = refl

instance abbrev pub driver_status_eq : Eq DriverStatus
driver_status_eq = enum_eq driver_status_code driver_status_of_code driver_status_inverse

pub data DriverCapability : Type 0 where
  pickup delivery line_haul : DriverCapability

abbrev pub driver_capability_code : DriverCapability → ℕ
driver_capability_code DriverCapability.pickup = 0
driver_capability_code DriverCapability.delivery = 1
driver_capability_code DriverCapability.line_haul = 2

abbrev pub driver_capability_of_code : ℕ → DriverCapability
driver_capability_of_code =
    nth DriverCapability.pickup
      (DriverCapability.pickup ∷ DriverCapability.delivery ∷ DriverCapability.line_haul ∷ [])

pub driver_capability_inverse :
    (a : DriverCapability) → driver_capability_of_code (driver_capability_code a) ≡ a
driver_capability_inverse DriverCapability.pickup = refl
driver_capability_inverse _ = refl

instance abbrev pub driver_capability_eq : Eq DriverCapability
driver_capability_eq =
    enum_eq driver_capability_code driver_capability_of_code driver_capability_inverse

pub data DriverAssignmentType : Type 0 where
  pickup delivery : DriverAssignmentType

abbrev pub driver_assignment_type_code : DriverAssignmentType → ℕ
driver_assignment_type_code DriverAssignmentType.pickup = 0
driver_assignment_type_code DriverAssignmentType.delivery = 1

abbrev pub driver_assignment_type_of_code : ℕ → DriverAssignmentType
driver_assignment_type_of_code =
    nth DriverAssignmentType.pickup
      (DriverAssignmentType.pickup ∷ DriverAssignmentType.delivery ∷ [])

pub driver_assignment_type_inverse :
    (a : DriverAssignmentType) → driver_assignment_type_of_code (driver_assignment_type_code a) ≡ a
driver_assignment_type_inverse DriverAssignmentType.pickup = refl
driver_assignment_type_inverse _ = refl

instance abbrev pub driver_assignment_type_eq : Eq DriverAssignmentType
driver_assignment_type_eq =
    enum_eq driver_assignment_type_code driver_assignment_type_of_code
      driver_assignment_type_inverse

pub data DriverAssignmentStatus : Type 0 where
  pending accepted rejected completed cancelled : DriverAssignmentStatus

abbrev pub driver_assignment_status_code : DriverAssignmentStatus → ℕ
driver_assignment_status_code DriverAssignmentStatus.pending = 0
driver_assignment_status_code DriverAssignmentStatus.accepted = 1
driver_assignment_status_code DriverAssignmentStatus.rejected = 2
driver_assignment_status_code DriverAssignmentStatus.completed = 3
driver_assignment_status_code DriverAssignmentStatus.cancelled = 4

abbrev pub driver_assignment_status_of_code : ℕ → DriverAssignmentStatus
driver_assignment_status_of_code = nth DriverAssignmentStatus.pending (
    DriverAssignmentStatus.pending ∷ DriverAssignmentStatus.accepted
    ∷ DriverAssignmentStatus.rejected ∷ DriverAssignmentStatus.completed
    ∷ DriverAssignmentStatus.cancelled ∷ [])

pub driver_assignment_status_inverse :
    (a : DriverAssignmentStatus)
    → driver_assignment_status_of_code (driver_assignment_status_code a) ≡ a
driver_assignment_status_inverse DriverAssignmentStatus.pending = refl
driver_assignment_status_inverse _ = refl

instance abbrev pub driver_assignment_status_eq : Eq DriverAssignmentStatus
driver_assignment_status_eq =
    enum_eq driver_assignment_status_code driver_assignment_status_of_code
      driver_assignment_status_inverse

pub data NotificationDeliveryChannel : Type 0 where
  realtime email : NotificationDeliveryChannel
