-- ===== src/Tests.antt =====
-- The theorems at concrete inputs.
mod Data
mod Store
mod Api
mod Logs
mod Agent
mod Shipping
mod Pipeline
mod Settings
mod Lifecycle
mod Client
mod Command
mod Poll
mod Staleness
