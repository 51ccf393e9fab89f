-- ===== src/Sql.antt =====
-- crates/pg-kinetic-core/src/protocol/sql_classify.rs and sql.rs: what the proxy reads in the text
-- of a statement.
mod Tests
pub mod Chars
pub mod Separators
pub mod Words
pub mod Statements
pub mod Classify
pub mod Hint
pub mod Tokens
pub mod Fingerprint
pub mod Commands
