-- ===== src/Session/Recovery.antt =====
-- crates/pg-kinetic-core/src/cluster/recovery.rs: how a backend whose client left it in the
-- middle of its work is recovered.

pub data RecoveryMode : Type 0 where
  recover rollback_only drop : RecoveryMode

pub data RecoveryTrigger : Type 0 where
  failed_transaction abandoned_transaction abandoned_response : RecoveryTrigger
  unknown_protocol_state : RecoveryTrigger

pub data RecoveryAction : Type 0 where
  none rollback drain_and_sync rollback_and_drain discard : RecoveryAction

unfoldable pub recovery_action : RecoveryTrigger → RecoveryMode → RecoveryAction
recovery_action t RecoveryMode.drop = RecoveryAction.discard
recovery_action RecoveryTrigger.failed_transaction RecoveryMode.rollback_only =
    RecoveryAction.rollback
recovery_action RecoveryTrigger.abandoned_transaction RecoveryMode.rollback_only =
    RecoveryAction.rollback
recovery_action RecoveryTrigger.abandoned_response RecoveryMode.rollback_only =
    RecoveryAction.discard
recovery_action RecoveryTrigger.unknown_protocol_state RecoveryMode.rollback_only =
    RecoveryAction.discard
recovery_action RecoveryTrigger.failed_transaction RecoveryMode.recover = RecoveryAction.rollback
recovery_action RecoveryTrigger.abandoned_transaction RecoveryMode.recover = RecoveryAction.rollback
recovery_action RecoveryTrigger.abandoned_response RecoveryMode.recover =
    RecoveryAction.drain_and_sync
recovery_action RecoveryTrigger.unknown_protocol_state RecoveryMode.recover = RecoveryAction.discard
