-- ===== src/Service.antt =====
-- framework/base: the service, its timers, its messages and its configuration.
pub mod Timeouts
pub mod Perf
pub mod Messages
pub mod Config
pub mod Connections
