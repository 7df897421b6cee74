-- ===== src/Cdc.antt =====
-- internal/cdc: the change data capture engine.
pub mod Event
pub mod Filter
pub mod Decode
pub mod Stream
pub mod Loop
pub mod Snapshot
pub mod Connect
pub mod Construct
pub mod Handover
pub mod Tests
pub mod FilterTests
pub mod SetupTests
pub mod HandoverTests
