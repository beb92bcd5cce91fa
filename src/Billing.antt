-- ===== src/Billing.antt =====
-- services/billing: credits and seats.
pub mod Models
pub mod Monad
pub mod Keeps
pub mod Ledger
pub mod Seats
pub mod Accounts
pub mod Credits
mod Tests
