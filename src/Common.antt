-- ===== src/Common.antt =====
-- crates/tls-probe-common.
pub mod Capture
pub mod Codes
mod Tests
