-- ===== src/Tests.antt =====
-- Runs of the models on small inputs, for each of the properties with hypotheses.
pub mod Sharing
pub mod Withheld
pub mod Storage
pub mod Lost
pub mod Commands
pub mod Offers
pub mod Billing
pub mod Providers
pub mod Disk
pub mod Directories
pub mod Network
pub mod Served
pub mod Metered
pub mod Healed
pub mod Keys
pub mod Reached
pub mod Owned
pub mod Restart
