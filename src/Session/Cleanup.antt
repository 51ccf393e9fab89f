-- ===== src/Session/Cleanup.antt =====
-- crates/pg-kinetic-core/src/cluster/cleanup.rs: what becomes of a backend at the end of a
-- request.
pub mod Release
use pg_kinetic.Prelude.{Bool, true, false, Option, none, some, if◌then◌else◌, is_some}
use pg_kinetic.Wire.Backend.{ReadyStatus}
use pg_kinetic.Session.Virtual.{VirtualSession, PinReason, has_replayable_settings}
use pg_kinetic.Session.Virtual.Pins.{pin_reason}

pub data CleanupAction : Type 0 where
  reuse reset_then_reuse keep_pinned rollback_then_reuse : CleanupAction
  rollback_then_keep_pinned discard : CleanupAction

pub data PoolMode : Type 0 where
  transaction session : PoolMode

abbrev pub is_unknown_protocol_state : Option PinReason → Bool
is_unknown_protocol_state (some PinReason.unknown_protocol_state) = true
is_unknown_protocol_state _ = false

-- The arms of `match backend_status`.
abbrev pub status_action : VirtualSession → ReadyStatus → PoolMode → CleanupAction
unfolding pin_reason has_replayable_settings
status_action s ReadyStatus.failed_transaction PoolMode.session =
    CleanupAction.rollback_then_keep_pinned
status_action s ReadyStatus.failed_transaction PoolMode.transaction =
    CleanupAction.rollback_then_reuse
status_action s ReadyStatus.in_transaction mode = CleanupAction.keep_pinned
status_action s ReadyStatus.idle PoolMode.session = CleanupAction.keep_pinned
status_action s ReadyStatus.idle PoolMode.transaction =
    if is_some (pin_reason s)
    then CleanupAction.keep_pinned
    else (if has_replayable_settings s then CleanupAction.reset_then_reuse else CleanupAction.reuse)

unfoldable pub cleanup_action : VirtualSession → ReadyStatus → PoolMode → CleanupAction
unfolding pin_reason
cleanup_action s status mode =
    if is_unknown_protocol_state (pin_reason s)
    then CleanupAction.discard
    else status_action s status mode
