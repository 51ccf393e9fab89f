-- ===== src/Session.antt =====
-- crates/pg-kinetic-core/src/protocol and crates/pg-kinetic-core/src/cluster: what the proxy
-- knows of a client's session, and what becomes of the backend that served it.
pub mod Transaction
pub mod Sql
pub mod Virtual
pub mod Cleanup
pub mod Recovery
mod Tests
