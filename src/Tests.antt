-- ===== src/Tests.antt =====
-- Runs on concrete inputs, and each theorem that has conditions at an input that meets them.
mod Broker
mod Execution
mod Account
mod Operations
mod MarketData
mod Universes
mod Registrations
mod Holdings
mod Portfolios
mod SignalJobs
