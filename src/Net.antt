-- ===== src/Net.antt =====
-- include/net and src/net.
pub mod Props
pub mod Greeting
pub mod Connection
pub mod Acceptor
pub mod Listener
pub mod Events
pub mod Data
pub mod Gc
pub mod Services
mod Tests
mod UnitTests
