-- ===== src/Finance.antt =====
-- The finances of appointments (server/appointment-finance.ts).
pub mod Rules
pub mod Amounts
pub mod Rounding
pub mod Base
pub mod ChairRent
pub mod Totals
pub mod Conservation
pub mod Once
