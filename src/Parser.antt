-- ===== src/Parser.antt =====
-- crates/tls-probe-parser.
pub mod Analysis
pub mod ClientHello
pub mod Extensions
pub mod ServerHello
mod Tests
pub mod Types
