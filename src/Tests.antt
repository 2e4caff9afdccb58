-- ===== src/Tests.antt =====
-- The theorems and the definitions at inputs like those of tests/unit and tests/integration.
pub mod Data
pub mod Toy
pub mod Patterns
pub mod Dispatch
pub mod Server
pub mod Timestamps
pub mod Client
pub mod Startup
pub mod Core
pub mod Stores
pub mod Threads
pub mod Lifetime
pub mod Workers
pub mod Http
pub mod Routes
