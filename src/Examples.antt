-- ===== src/Examples.antt =====
-- Concrete runs of the models, and the theorems at concrete inputs. No code of the repository.
pub mod Storage
pub mod Finance
pub mod Access
pub mod Booking
pub mod Expenses
pub mod Window
pub mod Delivery
pub mod Notification
pub mod RateLimit
pub mod Availability
pub mod TimeZone
