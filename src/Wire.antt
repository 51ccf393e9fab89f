-- ===== src/Wire.antt =====
-- crates/pg-kinetic-wire: the PostgreSQL wire protocol.
pub mod Buffer
pub mod Utf8
pub mod Protocol
pub mod SqlState
pub mod Frame
pub mod Backend
pub mod Auth
pub mod Startup
pub mod Message
pub mod Rewrite
mod Tests
