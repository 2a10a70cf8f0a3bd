-- ===== src/Grpc.antt =====
-- internal/adapter/grpc: the inbound adapter.
pub mod Status
pub mod Customers
pub mod Interceptors
pub mod Logs
