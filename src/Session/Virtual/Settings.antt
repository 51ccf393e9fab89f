-- ===== src/Session/Virtual/Settings.antt =====
-- The settings that are replayed on a backend, and the state that cannot be
-- (crates/pg-kinetic-core/src/protocol/virtual_session.rs).
use pg_kinetic.Prelude.{
  Bool, true, false, none, some, List, [], ◌∷◌, Bytes, ◌≡◌, inl, inr, refl, ◌∙◌, arith, Bool-cases,
  All,
}
use pg_kinetic.Session.Sql.{SqlCommand, SetScope}
use pg_kinetic.Session.Transaction.{TransactionAccessMode}
use pg_kinetic.Session.Virtual.{
  VirtualSession, default, apply_sql, apply_transaction_command, mark_ready_after_copy,
  mark_failed_transaction, mark_unknown_protocol_state, mark_transaction_write,
  set_read_after_write_required, set_read_after_write_unknown, clear_read_after_write,
  set_transaction_access_mode,
}
use pg_kinetic.Session.Virtual.Shards.{
  set_transaction_shard_affinity, mark_transaction_cross_shard_violation,
  clear_transaction_shard_affinity, apply_transaction_shard_affinity,
}
use pg_kinetic.Session.Virtual.Events.{
  Event, sql, transaction_command, write, failed_statement, ready_after_copy, unknown_protocol,
  pin_shard, request_shard, violate_shard, clear_shard, require_read_after_write,
  unknown_read_after_write, no_read_after_write, step, run,
}
use pg_kinetic.Prelude.Maps.{TextMap, insert, remove}
use pg_kinetic.Session.Virtual.{
  apply_set, apply_reset, clear_all, begin_transaction, end_transaction, is_replayable_setting,
}

-- Every key can be replayed.
abbrev pub AllReplayable : TextMap → Type 0
AllReplayable = All λ p. is_replayable_setting p.0 ≡ true

insert-Replayable :
    (k v : Bytes) (m : TextMap)
    → is_replayable_setting k ≡ true
    → AllReplayable m
    → AllReplayable (insert k v m)
unfolding insert
insert-Replayable k v [] h a = (h, tt)
insert-Replayable k v ((j, w) ∷ m) h a = ground (arith, h, a, insert-Replayable k v m h a.1)

remove-Replayable : (k : Bytes) (m : TextMap) → AllReplayable m → AllReplayable (remove k m)
unfolding remove
remove-Replayable k [] a = tt
remove-Replayable k ((j, w) ∷ m) a = ground (arith, a, remove-Replayable k m a.1)

sql-Replayable :
    (command : SqlCommand) (s : VirtualSession)
    → AllReplayable s.settings
    → AllReplayable (apply_sql command s).settings
unfolding apply_sql apply_set apply_reset clear_all begin_transaction end_transaction
    set_transaction_access_mode
sql-Replayable (SqlCommand.begin mode) s a = a
sql-Replayable SqlCommand.commit s a = a
sql-Replayable SqlCommand.rollback s a = a
sql-Replayable (SqlCommand.set_transaction mode) s a = ground (arith, a)
sql-Replayable (SqlCommand.set SetScope.local k v) s a = a
sql-Replayable (SqlCommand.set SetScope.session k v) s a =
    elim (Bool-cases (is_replayable_setting k)) [
      | inl h ↦ ground (arith, h, insert-Replayable k v s.settings h a)
      | inr h ↦ ground (arith, h, a)
    ]
sql-Replayable (SqlCommand.reset k) s a = ground (arith, remove-Replayable k s.settings a)
sql-Replayable SqlCommand.discard_all s a = tt
sql-Replayable SqlCommand.discard_temp s a = a
sql-Replayable SqlCommand.discard_plans s a = a
sql-Replayable SqlCommand.create_temp s a = a
sql-Replayable SqlCommand.advisory_lock s a = a
sql-Replayable SqlCommand.advisory_unlock s a = a
sql-Replayable SqlCommand.copy s a = a
sql-Replayable SqlCommand.listen s a = a
sql-Replayable SqlCommand.unlisten s a = a
sql-Replayable SqlCommand.query s a = a

-- A command of a transaction leaves the settings alone.
settings_kept_set_mode :
    (mode : TransactionAccessMode) (s : VirtualSession)
    → (set_transaction_access_mode mode s).settings ≡ s.settings
unfolding set_transaction_access_mode
settings_kept_set_mode mode s = ground arith

settings_kept_write : (s : VirtualSession) → (mark_transaction_write s).settings ≡ s.settings
unfolding mark_transaction_write
settings_kept_write s = ground arith

settings_kept_control :
    (command : SqlCommand) (s : VirtualSession)
    → (apply_transaction_command command false s).settings ≡ s.settings
unfolding apply_transaction_command begin_transaction end_transaction
settings_kept_control (SqlCommand.set_transaction mode) s = settings_kept_set_mode mode s
settings_kept_control _ s = refl

settings_kept_command :
    (command : SqlCommand) (is_write : Bool) (s : VirtualSession)
    → (apply_transaction_command command is_write s).settings ≡ s.settings
unfolding apply_transaction_command
settings_kept_command command false s = settings_kept_control command s
settings_kept_command command true s =
    settings_kept_write (apply_transaction_command command false s)
    ∙ settings_kept_control command s

replayable_step :
    (e : Event) (s : VirtualSession) → AllReplayable s.settings → AllReplayable (step e s).settings
unfolding step mark_ready_after_copy mark_unknown_protocol_state set_transaction_shard_affinity
    mark_transaction_cross_shard_violation clear_transaction_shard_affinity mark_failed_transaction
    set_read_after_write_required set_read_after_write_unknown clear_read_after_write
    apply_transaction_shard_affinity mark_transaction_write apply_transaction_command
replayable_step (sql command) s a = sql-Replayable command s a
replayable_step (transaction_command command is_write) s a =
    rw (settings_kept_command command is_write s) a
replayable_step write s a = rw (settings_kept_write s) a
replayable_step failed_statement s a = rw (settings_kept_write s) a
replayable_step (request_shard none reason policy) s a = ground (arith, a)
replayable_step (request_shard (some id) reason policy) s a = ground (arith, a)
replayable_step ready_after_copy s a = a
replayable_step unknown_protocol s a = a
replayable_step (pin_shard id reason) s a = a
replayable_step violate_shard s a = ground (arith, a)
replayable_step clear_shard s a = a
replayable_step (require_read_after_write lsn) s a = a
replayable_step unknown_read_after_write s a = a
replayable_step no_read_after_write s a = a

run-Replayable :
    (es : List Event) (s : VirtualSession)
    → AllReplayable s.settings
    → AllReplayable (run es s).settings
unfolding run
run-Replayable [] s a = a
run-Replayable (e ∷ es) s a = run-Replayable es (step e s) (replayable_step e s a)

-- After any calls, the settings that are replayed on a backend are ones that may be.
pub run_keeps_replayable : (es : List Event) → AllReplayable (run es default).settings
unfolding default
run_keeps_replayable es = run-Replayable es default tt
