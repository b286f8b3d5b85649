-- ===== src/Control.antt =====
-- The control plane, core/control: accounts, plans, space and billing.
pub mod Model
pub mod Exec
pub mod Store
pub mod File
pub mod Service
pub mod Api
pub mod Client
pub mod Keyed
pub mod Space
pub mod Settling
pub mod Offered
pub mod Ledger
pub mod Order
pub mod Overdue
pub mod Billed
pub mod Reach
pub mod Paid
