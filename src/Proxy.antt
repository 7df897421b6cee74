-- ===== src/Proxy.antt =====
-- internal/proxy: the read/write split proxy.
pub mod Classifier
pub mod Wire
pub mod Startup
pub mod Session
pub mod Connection
pub mod Server
pub mod Tests
pub mod ServerTests
