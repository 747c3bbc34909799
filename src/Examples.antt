-- ===== src/Examples.antt =====
-- Runs at concrete values, and the instances of the theorems at them.
mod Fixture
mod Queries
mod Messages
mod Programs
mod Labels
mod Drains
mod Passes
mod Exchanges
mod Texts
mod Pins
mod Policies
mod Images
mod Loads
mod Logs
