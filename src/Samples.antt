-- ===== src/Samples.antt =====
-- Concrete data and outside components, the tests on them, and one use of each theorem.
pub mod World
mod Billing
mod Campaigns
mod Codes
mod Metering
mod Orders
mod Pages
mod People
mod Plans
mod Posts
mod Publishing
mod Workspace
mod Tokens
