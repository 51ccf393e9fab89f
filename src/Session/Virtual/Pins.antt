-- ===== src/Session/Virtual/Pins.antt =====
-- Why a session keeps its backend (crates/pg-kinetic-core/src/protocol/virtual_session.rs).
use pg_kinetic.Prelude.{false, Option, none, some, if◌then◌else◌, ◌≡◌, ◌↔◌, refl, arith}
use pg_kinetic.Session.Sql.{SqlCommand}
use pg_kinetic.Session.Virtual.{
  VirtualSession, TransactionState, idle, in_transaction, failed, PinReason, open_transaction,
  failed_transaction, session_state, temp_table, advisory_lock, copy, listen_notify,
  unknown_protocol_state, default, apply_sql,
}

pin_by_transaction : TransactionState → Option PinReason → Option PinReason
pin_by_transaction failed rest = some failed_transaction
pin_by_transaction in_transaction rest = some open_transaction
pin_by_transaction idle rest = rest

unfoldable pub pin_reason : VirtualSession → Option PinReason
unfolding pin_by_transaction
pin_reason s =
    if s.unknown_protocol_state
    then some unknown_protocol_state
    else if s.in_copy
    then some copy
    else pin_by_transaction s.transaction (
        if s.has_temp_table
        then some temp_table
        else if s.has_advisory_lock
        then some advisory_lock
        else if s.has_listen
        then some listen_notify
        else if s.has_unsafe_session_state
        then some session_state
        else none)

-- A session that any backend may serve next.
pub record IsUnpinned (s : VirtualSession) : Type 0 where
  pub known : s.unknown_protocol_state ≡ false
  pub no_copy : s.in_copy ≡ false
  pub no_transaction : s.transaction ≡ idle
  pub no_temp_table : s.has_temp_table ≡ false
  pub no_advisory_lock : s.has_advisory_lock ≡ false
  pub no_listen : s.has_listen ≡ false
  pub safe_state : s.has_unsafe_session_state ≡ false

-- There is no reason for a pin exactly when no transaction is open or failed and no flag is up.
pub pin_reason-none_iff : (s : VirtualSession) → (pin_reason s ≡ none) ↔ IsUnpinned s
unfolding pin_reason
pin_reason-none_iff s = ground arith

-- `DISCARD ALL` leads back to a new session, whatever went before.
pub apply_sql-discard_all : (s : VirtualSession) → apply_sql SqlCommand.discard_all s ≡ default
unfolding apply_sql default
apply_sql-discard_all s = refl
