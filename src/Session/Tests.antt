-- ===== src/Session/Tests.antt =====
-- Small runs of a session, and the theorems at work on them.
use pg_kinetic.Prelude.{
  Bool, true, false, All, inl, some, List, [], ◌∷◌, ◌≡◌, ◌↔◌, refl, arith, codes,
}
use pg_kinetic.Routing.{BackendRole, RoutingReason, ShardId}
use pg_kinetic.Wire.Backend.{ReadyStatus}
use pg_kinetic.Session.Sql.{SqlCommand}
use pg_kinetic.Session.Transaction.{TransactionAccessMode, shard_state_new}
use pg_kinetic.Session.Virtual.{
  VirtualSession, TransactionState, default, apply_sql, current_transaction_target_role,
}
use pg_kinetic.Session.Virtual.Shards.{set_transaction_shard_affinity}
use pg_kinetic.Session.Virtual.Events.{Event, step, run, run-IsRouted}
use pg_kinetic.Session.Virtual.Routes.{is_boundary_command, written_stays_primary}
use pg_kinetic.Session.Virtual.Texts.{apply_transaction_sql_with_routing}
use pg_kinetic.Session.Virtual.Written.{IsNoSet, IsInside, AnyWrites, written_text_goes_to_primary}
use pg_kinetic.Sql.Chars.{Text, trim, normalize, starts_with, contains}
use pg_kinetic.Sql.Classify.{
  is_transaction_control, is_session_mutation, is_write_statement, classify_unexplained,
  classify_loop, classify_single_statement, classify_sql,
}
use pg_kinetic.Sql.Commands.{
  trim_semicolons, parse_begin_transaction, parse_set_transaction, classify_rest, classify,
}
use pg_kinetic.Sql.Separators.{strip_leading_comments_and_whitespace}
use pg_kinetic.Sql.Statements.{split_top_level_statements}
use pg_kinetic.Sql.Words.{keyword_is}
use pg_kinetic.Session.Cleanup.{CleanupAction, PoolMode, cleanup_action}
use pg_kinetic.Session.Cleanup.Release.{IsReleasable, cleanup_action-reuse_iff}

-- A read only transaction that has been opened on shard `a`.
abbrev home : ShardId
home = codes "a"

abbrev opening : List Event
opening =
    Event.sql (SqlCommand.begin TransactionAccessMode.read_only)
    ∷ Event.pin_shard home RoutingReason.read_only_query
    ∷ []

abbrev opened : VirtualSession
opened = run opening default

opened_inside : opened.transaction ≡ TransactionState.in_transaction
unfolding run step default apply_sql set_transaction_shard_affinity
opened_inside = refl

opened_home : opened.transaction_shard ≡ some (shard_state_new home RoutingReason.read_only_query)
unfolding run step default apply_sql set_transaction_shard_affinity
opened_home = refl

abbrev writing : Text
writing = codes "insert into t values (1); select 2"

writing-IsNoSet : All IsNoSet (split_top_level_statements writing)
unfolding split_top_level_statements trim_semicolons trim normalize starts_with
writing-IsNoSet = (refl, (refl, tt))

-- A command that ends no transaction.
query-keeps :
    (command : SqlCommand)
    → some SqlCommand.query ≡ some command
    → is_boundary_command command ≡ false
query-keeps command e = ground arith

writing-IsInside : All IsInside (split_top_level_statements writing)
unfolding split_top_level_statements classify classify_rest parse_begin_transaction
    parse_set_transaction trim_semicolons trim normalize starts_with contains
writing-IsInside = (query-keeps, (query-keeps, tt))

writing_writes : AnyWrites (split_top_level_statements writing)
unfolding split_top_level_statements classify_sql classify_single_statement classify_loop
    classify_unexplained is_transaction_control is_session_mutation is_write_statement keyword_is
    strip_leading_comments_and_whitespace
writing_writes = inl refl

written_text_goes_to_primary_example :
    (r : Bool × VirtualSession) × ((apply_transaction_sql_with_routing writing true opened ≡ some r)
      × (current_transaction_target_role r.1 ≡ some BackendRole.primary))
written_text_goes_to_primary_example =
    written_text_goes_to_primary writing opened writing-IsNoSet writing-IsInside writing_writes
      (run-IsRouted opening) opened_inside

written_stays_primary_example :
    current_transaction_target_role (
      run
        (Event.write
          ∷ Event.sql (SqlCommand.set_transaction TransactionAccessMode.read_only)
          ∷ Event.failed_statement
          ∷ [])
        opened)
    ≡ some BackendRole.primary
written_stays_primary_example =
    written_stays_primary
      (Event.sql (SqlCommand.set_transaction TransactionAccessMode.read_only)
        ∷ Event.failed_statement
        ∷ [])
      opened (run-IsRouted opening) opened_inside (ground arith)

cleanup_action-reuse_iff_example :
    (cleanup_action default ReadyStatus.idle PoolMode.transaction ≡ CleanupAction.reuse)
    ↔ (IsReleasable default ReadyStatus.idle PoolMode.transaction × default.settings ≡ [])
cleanup_action-reuse_iff_example =
    cleanup_action-reuse_iff default ReadyStatus.idle PoolMode.transaction
