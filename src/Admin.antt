-- ===== src/Admin.antt =====
-- src/server/s5admin and src/server/server_data.c: what the administrator reads and sets.
pub mod AccessRegister
pub mod Metrics
pub mod ServerData
pub mod Command
pub mod Print
pub mod Config
pub mod Session
