-- ===== src/Session/Cleanup/Release.antt =====
-- When a backend goes back to the pool (crates/pg-kinetic-core/src/cluster/cleanup.rs).
use pg_kinetic.Prelude.{true, [], ◌≡◌, ◌≢◌, ◌↔◌, arith}
use pg_kinetic.Wire.Backend.{ReadyStatus}
use pg_kinetic.Session.Virtual.{VirtualSession, has_replayable_settings}
use pg_kinetic.Session.Virtual.Pins.{pin_reason, IsUnpinned}
use pg_kinetic.Session.Cleanup.{CleanupAction, PoolMode, cleanup_action}

-- The session, the pool and the backend agree that the backend carries nothing of the client.
pub record IsReleasable (s : VirtualSession) (status : ReadyStatus) (mode : PoolMode) : Type 0 where
  pub unpinned : IsUnpinned s
  pub status_idle : status ≡ ReadyStatus.idle
  pub by_transaction : mode ≡ PoolMode.transaction

-- A backend is reused as it is exactly when it is idle in transaction mode, nothing pins the
-- session and no setting is to be replayed.
pub cleanup_action-reuse_iff :
    (s : VirtualSession) (status : ReadyStatus) (mode : PoolMode)
    → (cleanup_action s status mode ≡ CleanupAction.reuse)
      ↔ (IsReleasable s status mode × s.settings ≡ [])
unfolding cleanup_action pin_reason has_replayable_settings
cleanup_action-reuse_iff s ReadyStatus.idle PoolMode.transaction = ground arith
cleanup_action-reuse_iff s ReadyStatus.idle PoolMode.session = ground arith
cleanup_action-reuse_iff s ReadyStatus.in_transaction mode = ground arith
cleanup_action-reuse_iff s ReadyStatus.failed_transaction PoolMode.transaction = ground arith
cleanup_action-reuse_iff s ReadyStatus.failed_transaction PoolMode.session = ground arith

-- A backend is reset and then reused exactly when it is idle in transaction mode, nothing pins the
-- session and there is a setting to replay.
pub cleanup_action-reset_iff :
    (s : VirtualSession) (status : ReadyStatus) (mode : PoolMode)
    → (cleanup_action s status mode ≡ CleanupAction.reset_then_reuse)
      ↔ (IsReleasable s status mode × s.settings ≢ [])
unfolding cleanup_action pin_reason has_replayable_settings
cleanup_action-reset_iff s ReadyStatus.idle PoolMode.transaction = ground arith
cleanup_action-reset_iff s ReadyStatus.idle PoolMode.session = ground arith
cleanup_action-reset_iff s ReadyStatus.in_transaction mode = ground arith
cleanup_action-reset_iff s ReadyStatus.failed_transaction PoolMode.transaction = ground arith
cleanup_action-reset_iff s ReadyStatus.failed_transaction PoolMode.session = ground arith

-- A backend is thrown away exactly when the state of the protocol is unknown.
pub cleanup_action-discard_iff :
    (s : VirtualSession) (status : ReadyStatus) (mode : PoolMode)
    → (cleanup_action s status mode ≡ CleanupAction.discard) ↔ (s.unknown_protocol_state ≡ true)
unfolding cleanup_action pin_reason has_replayable_settings
cleanup_action-discard_iff s ReadyStatus.idle PoolMode.transaction = ground arith
cleanup_action-discard_iff s ReadyStatus.idle PoolMode.session = ground arith
cleanup_action-discard_iff s ReadyStatus.in_transaction mode = ground arith
cleanup_action-discard_iff s ReadyStatus.failed_transaction PoolMode.transaction = ground arith
cleanup_action-discard_iff s ReadyStatus.failed_transaction PoolMode.session = ground arith
