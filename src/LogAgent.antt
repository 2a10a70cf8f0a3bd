-- ===== src/LogAgent.antt =====
-- internal/logagent: the collector of container logs.
pub mod Cri
pub mod Positions
pub mod Tailer
pub mod Shipper
pub mod Agent
pub mod Config
pub mod Command
