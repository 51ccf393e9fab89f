-- ===== src/Prepared/Tests.antt =====
-- A small catalog, and the theorems at work on it.
use pg_kinetic.Prelude.{
  ℕ, true, false, some, List, [], ◌∷◌, length, ◌≡◌, refl, sym, arith, Bytes, codes,
}
use pg_kinetic.Prelude.Tables.{get, erase}
use pg_kinetic.Session.Sql.{SqlCommand}
use pg_kinetic.Session.Transaction.{PreparedShardSummary}
use pg_kinetic.Prepared.{
  PreparedStatement, PreparedCatalog, decimal, statement_name, new, upsert, get_statement,
  is_materialized, mark_materialized,
}
use pg_kinetic.Prepared.Materialized.{IsCurrent}
use pg_kinetic.Prepared.Runs.{Event, run, prepared_is_parsed}

-- The analysis is the length of the query.
abbrev analysis_of : Bytes → ℕ
analysis_of query = length query

abbrev command_of : Bytes → SqlCommand
command_of query = SqlCommand.query

name_text : statement_name 7 12 ≡ codes "pgk_7_12"
unfolding statement_name decimal
name_text = refl

abbrev key : ℕ
key = 12

-- Two statements, the first of which is parsed on backend 3.
abbrev events : List Event
events =
    Event.prepare (codes "s1") (codes "SELECT 1") []
    ∷ Event.prepare (codes "s2") (codes "SELECT 2") []
    ∷ Event.parsed 3 (codes "s1")
    ∷ []

prepared_is_parsed_example :
    is_materialized 3
      (upsert analysis_of command_of
        (codes "s1")
        (codes "SELECT 3")
        []
        (run analysis_of command_of events (new 7))).0
      (upsert analysis_of command_of
        (codes "s1")
        (codes "SELECT 3")
        []
        (run analysis_of command_of events (new 7))).1
    ≡ false
prepared_is_parsed_example =
    prepared_is_parsed analysis_of command_of 7 events (codes "s1") (codes "SELECT 3") [] 3
      (omega arith) (ground arith)

abbrev catalog : PreparedCatalog ℕ
catalog = run analysis_of command_of events (new 7)

abbrev first : PreparedStatement ℕ
first = record {
  client_name = codes "s1";
  backend_name = codes "pgk_7_1";
  query = codes "SELECT 1";
  analysis = 8;
  command = SqlCommand.query;
  parameter_type_oids = [];
  route_map_generation_id = 0;
  shard_summary = PreparedShardSummary.deferred;
  cache_key = 1;
}

first_found : get_statement (codes "s1") catalog ≡ some first
unfolding run get_statement get upsert erase new mark_materialized statement_name
first_found = refl

first_held : is_materialized 3 first catalog ≡ true
unfolding run is_materialized get_statement get upsert erase new mark_materialized
first_held = refl

catalog_route_map : catalog.route_map_generation_id ≡ 0
unfolding run get_statement get upsert erase new mark_materialized
catalog_route_map = refl

first-IsCurrent : IsCurrent first catalog
first-IsCurrent = record { named = omega arith; current = sym catalog_route_map }
