-- ===== src/Routing/Modes.antt =====
-- crates/pg-kinetic-core/src/traffic/routing.rs: the settings of read routing.
pub data ReadRoutingMode : Type 0 where
  off prefer_replica require_replica primary_only : ReadRoutingMode

pub data FallbackPolicy : Type 0 where
  primary reject wait : FallbackPolicy

-- `no_requirement` is `FreshnessPolicy::None`.
pub data FreshnessPolicy : Type 0 where
  no_requirement session_write_lsn max_replica_lag session_write_lsn_and_max_lag : FreshnessPolicy
