-- ===== src/Drain/Late.antt =====
-- A client that is let in too late: crates/pg-kinetic-proxy/src/ops/drain.rs.
