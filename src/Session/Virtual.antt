-- ===== src/Session/Virtual.antt =====
-- crates/pg-kinetic-core/src/protocol/virtual_session.rs. A method that changes the session
-- returns the new one. The children hold the shard of a transaction, the reasons for a pin, the
-- transactions that come as a text of several statements (Texts), and the theorems.
pub mod Shards
pub mod Pins
pub mod Events
pub mod Routes
pub mod Settings
pub mod Texts
pub mod Written
use pg_kinetic.Prelude.{
  ℕ, Bool, true, false, ◌&&◌, ◌||◌, not, Option, none, some, List, [], ◌∷◌, ◌++◌, map,
  if◌then◌else◌, is_some, Bytes, codes, bytes_eq,
}
use mathlib.Core.Option
use pg_kinetic.Prelude.Maps.{TextMap, insert, remove}
use pg_kinetic.Routing.{BackendRole, RoutingReason, is_unknown_query, MultiShardPolicy, ShardId}
use pg_kinetic.Session.Sql.{SqlCommand, SetScope}
use pg_kinetic.Session.Transaction.{
  TransactionAccessMode, read_only, read_write, TransactionShardDecision, accepted, rejected,
  follow_multi_shard_policy, TransactionShardState, shard_state_new, ReadRoutingTransactionState,
  read_routing_new, set_access_mode, force_primary,
}

pub data PinReason : Type 0 where
  open_transaction failed_transaction session_state temp_table advisory_lock copy : PinReason
  listen_notify unknown_protocol_state : PinReason

pub data TransactionState : Type 0 where
  idle in_transaction failed : TransactionState

-- `required` holds the LSN of the last write.
pub data ReadAfterWriteState : Type 0 where
  disabled : ReadAfterWriteState
  required : ℕ → ReadAfterWriteState
  unknown : ReadAfterWriteState

pub record VirtualSession : Type 0 where
  pub transaction : TransactionState
  pub read_routing_transaction : Option ReadRoutingTransactionState
  pub transaction_shard : Option TransactionShardState
  pub read_after_write : ReadAfterWriteState
  pub settings : TextMap
  pub has_unsafe_session_state : Bool
  pub has_temp_table : Bool
  pub has_advisory_lock : Bool
  pub in_copy : Bool
  pub has_listen : Bool
  pub unknown_protocol_state : Bool

unfoldable pub default : VirtualSession
default = record {
  transaction = idle;
  read_routing_transaction = none;
  transaction_shard = none;
  read_after_write = disabled;
  settings = [];
  has_unsafe_session_state = false;
  has_temp_table = false;
  has_advisory_lock = false;
  in_copy = false;
  has_listen = false;
  unknown_protocol_state = false;
}

abbrev pub is_in_transaction : TransactionState → Bool
is_in_transaction in_transaction = true
is_in_transaction _ = false

unfoldable pub is_replayable_setting : Bytes → Bool
is_replayable_setting key =
    bytes_eq key (codes "application_name")
    || (bytes_eq key (codes "timezone")
        || (bytes_eq key (codes "datestyle")
            || (bytes_eq key (codes "search_path") || bytes_eq key (codes "extra_float_digits"))))

unfoldable pub begin_transaction : TransactionAccessMode → VirtualSession → VirtualSession
begin_transaction mode s = record s {
  transaction = in_transaction;
  read_routing_transaction = some (read_routing_new mode);
}

unfoldable pub end_transaction : VirtualSession → VirtualSession
end_transaction s = record s {
  transaction = idle;
  read_routing_transaction = none;
  transaction_shard = none;
}

-- `get_or_insert_with`.
abbrev pub or_new :
    Option ReadRoutingTransactionState → TransactionAccessMode → ReadRoutingTransactionState
or_new none mode = read_routing_new mode
or_new (some r) mode = r

unfoldable pub set_transaction_access_mode : TransactionAccessMode → VirtualSession → VirtualSession
set_transaction_access_mode mode s =
    if is_in_transaction s.transaction
    then record s {
      read_routing_transaction =
          some (set_access_mode mode (or_new s.read_routing_transaction mode));
    }
    else s

unfoldable pub mark_transaction_write : VirtualSession → VirtualSession
mark_transaction_write s =
    if is_in_transaction s.transaction
    then record s {
      read_routing_transaction =
          some (force_primary (or_new s.read_routing_transaction read_write));
    }
    else s

unfoldable pub apply_set : SetScope → Bytes → Bytes → VirtualSession → VirtualSession
unfolding is_replayable_setting
apply_set SetScope.local key value s = s
apply_set SetScope.session key value s =
    if is_replayable_setting key
    then record s { settings = insert key value s.settings }
    else record s { has_unsafe_session_state = true }

unfoldable pub clear_all : VirtualSession → VirtualSession
clear_all s = record s {
  transaction = idle;
  read_routing_transaction = none;
  transaction_shard = none;
  read_after_write = disabled;
  settings = [];
  has_unsafe_session_state = false;
  has_temp_table = false;
  has_advisory_lock = false;
  in_copy = false;
  has_listen = false;
  unknown_protocol_state = false;
}

unfoldable pub apply_reset : Bytes → VirtualSession → VirtualSession
unfolding is_replayable_setting
apply_reset key s =
    let s' = record s { settings = remove key s.settings } in
    if not (is_replayable_setting key) then record s' { has_unsafe_session_state = true } else s'

unfoldable pub apply_sql : SqlCommand → VirtualSession → VirtualSession
unfolding begin_transaction end_transaction set_transaction_access_mode apply_set apply_reset
    clear_all
apply_sql (SqlCommand.begin mode) s = begin_transaction mode s
apply_sql SqlCommand.commit s = end_transaction s
apply_sql SqlCommand.rollback s = end_transaction s
apply_sql (SqlCommand.set_transaction mode) s = set_transaction_access_mode mode s
apply_sql (SqlCommand.set scope key value) s = apply_set scope key value s
apply_sql (SqlCommand.reset key) s = apply_reset key s
apply_sql SqlCommand.discard_all s = clear_all s
apply_sql SqlCommand.discard_temp s = record s { has_temp_table = false }
apply_sql SqlCommand.discard_plans s = s
apply_sql SqlCommand.create_temp s = record s { has_temp_table = true }
apply_sql SqlCommand.advisory_lock s = record s { has_advisory_lock = true }
apply_sql SqlCommand.advisory_unlock s = record s { has_advisory_lock = false }
apply_sql SqlCommand.copy s = record s { in_copy = true }
apply_sql SqlCommand.listen s = record s { has_listen = true }
apply_sql SqlCommand.unlisten s = record s { has_listen = false }
apply_sql SqlCommand.query s = s

apply_control : SqlCommand → VirtualSession → VirtualSession
unfolding begin_transaction end_transaction set_transaction_access_mode
apply_control (SqlCommand.begin mode) s = begin_transaction mode s
apply_control SqlCommand.commit s = end_transaction s
apply_control SqlCommand.rollback s = end_transaction s
apply_control (SqlCommand.set_transaction mode) s = set_transaction_access_mode mode s
apply_control _ s = s

unfoldable pub apply_transaction_command : SqlCommand → Bool → VirtualSession → VirtualSession
unfolding apply_control mark_transaction_write
apply_transaction_command command is_write s =
    let s' = apply_control command s in if is_write then mark_transaction_write s' else s'

unfoldable pub mark_ready_after_copy : VirtualSession → VirtualSession
mark_ready_after_copy s = record s { in_copy = false }

unfoldable pub mark_failed_transaction : VirtualSession → VirtualSession
unfolding mark_transaction_write
mark_failed_transaction s = record (mark_transaction_write s) { transaction = failed }

unfoldable pub mark_unknown_protocol_state : VirtualSession → VirtualSession
mark_unknown_protocol_state s = record s { unknown_protocol_state = true }

unfoldable pub set_read_after_write_required : ℕ → VirtualSession → VirtualSession
set_read_after_write_required lsn s = record s { read_after_write = required lsn }

unfoldable pub set_read_after_write_unknown : VirtualSession → VirtualSession
set_read_after_write_unknown s = record s { read_after_write = unknown }

unfoldable pub clear_read_after_write : VirtualSession → VirtualSession
clear_read_after_write s = record s { read_after_write = disabled }

unfoldable pub current_transaction_target_role : VirtualSession → Option BackendRole
current_transaction_target_role s = Option.map (λ r. r.target_role) s.read_routing_transaction

unfoldable pub current_transaction_route_reason : VirtualSession → Option RoutingReason
current_transaction_route_reason s = Option.map (λ r. r.route_reason) s.read_routing_transaction

unfoldable pub replay_sql : VirtualSession → List Bytes
replay_sql s = map (λ p. codes "SET " ++ (p.0 ++ (codes " = " ++ p.1))) s.settings

unfoldable pub has_replayable_settings : VirtualSession → Bool
has_replayable_settings s = elim s.settings [ [] ↦ false | _ ∷ _ ↦ true ]
