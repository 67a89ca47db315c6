-- ===== src/Schema.antt =====
-- The enumerations of the database schema (backend/prisma/schema.prisma).
mod Code
mod Accounts
mod Shipping
mod Money
mod Payments
mod Network
pub use Accounts.*
pub use Shipping.*
pub use Money.*
pub use Payments.*
pub use Network.*
