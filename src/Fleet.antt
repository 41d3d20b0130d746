-- ===== src/Fleet.antt =====
-- Package fleet (internal/fleet): what the console learns from a host.
pub mod Health
pub mod Tree
pub mod Pool
pub mod Calls
pub mod Client
