-- ===== src/Core.antt =====
-- include/core and src/core.
pub mod Utility
pub mod Filesystem
pub mod Logger
pub mod Convert
pub mod Hashers
pub mod GuardedData
pub mod ExecutionTimer
pub mod CrashHandler
mod Tests
mod UnitTests
