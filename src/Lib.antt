-- ===== src/Lib.antt =====
-- pg-kinetic is a proxy between PostgreSQL clients and servers that pools backends by transaction.
-- A client's bytes become frames (crates/pg-kinetic-wire), the frames drive a virtual session
-- (crates/pg-kinetic-core/src/protocol), and the session, with the status that the backend reports,
-- decides where a request goes and what becomes of the backend
-- (crates/pg-kinetic-core/src/traffic and crates/pg-kinetic-core/src/cluster).
--
-- Files, by the part of the program:
--   Prelude           tests, lists, texts as bytes; Prelude/Maps is BTreeMap<String, String> and
--                     Prelude/Tables HashMap
--   Wire/Buffer       the calls of the `bytes` crate: big-endian integers, slices, `position`
--   Wire/Utf8         std::str::from_utf8: the bytes of a text, checked by RFC 3629
--   Wire/Protocol     error.rs and protocol.rs: `WireError`, the tags and their bytes
--   Wire/SqlState     sqlstate.rs
--   Wire/Frame        frame.rs, `encode_frontend_frame` of rewrite.rs, and
--                     `parse_frontend_cycle_frames` of
--                     crates/pg-kinetic-proxy/src/engine/io_runtime.rs
--   Wire/Message      message.rs: what the proxy reads of Query, Parse, Bind, Describe, Close
--   Wire/Rewrite      rewrite.rs: the statement names that are put in their place
--   Wire/Backend      backend.rs: the frames of a server and those that the proxy makes up
--   Wire/Auth         auth.rs
--   Wire/Startup      startup.rs, tls.rs, and the packets of cancel.rs and observe/health.rs in
--                     crates/pg-kinetic-proxy/src
--   Sql               protocol/sql_classify.rs and fingerprint.rs: Sql/Separators, Sql/Words and
--                     Sql/Statements read a text, Sql/Classify says what a statement does, Sql/Hint
--                     reads the hint of a comment, Sql/Tokens is `tokenize_sql` with `is_ddl` and
--                     `is_unqualified_dml`, Sql/Fingerprint is fingerprint.rs, and Sql/Commands the
--                     classifier of protocol/sql.rs
--   Routing           traffic/routing.rs and the shard ids of traffic/sharding.rs; Routing/Modes the
--                     modes and policies, Routing/Planner and Routing/Policy
--                     crates/pg-kinetic-proxy/src/routing.rs: `choose_routing_target`, and what the
--                     action of a policy makes of it
--   Policy            traffic/policy_rule.rs: the evaluation of rules; Policy/Validate their check
--   Guardrails        crates/pg-kinetic-proxy/src/guardrails.rs
--   Drain             crates/pg-kinetic-proxy/src/ops/drain.rs
--   Pause             crates/pg-kinetic-proxy/src/ops/pause.rs
--   Session/Transaction, Session/Sql, Session/Virtual
--                     protocol/session.rs (the state of a transaction), protocol/sql.rs (the
--                     commands) and protocol/virtual_session.rs; Session/Virtual/Texts takes a
--                     text of several statements
--   Session/Cleanup, Session/Recovery
--                     cluster/cleanup.rs and cluster/recovery.rs
--   Prepared          protocol/prepare.rs: the catalog of prepared statements. What `analyze_sql` and
--                     `classify` say of a query is kept and not looked at, so both are arguments
--   Lsn               cluster/lsn.rs
--   Sharding          traffic/sharding.rs: keys, rules, their validation and the shard of a key;
--                     Sharding/RouteMap is `validate_route_map`
--   Cycle             crates/pg-kinetic-proxy/src/engine/io_runtime.rs: `take_frontend_cycle_bytes`,
--                     which Cycle/Split says in terms of frames; Cycle/Startup is
--                     `take_startup_packet_bytes`
--   Cancel            crates/pg-kinetic-proxy/src/cancel.rs: the registry, and in Cancel/System one
--                     `CancelBinding`, which its session and cancel requests use at once
--   Breaker           crates/pg-kinetic-proxy/src/resilience.rs; Breaker/Calls is any sequence of
--                     calls
--   Gate              crates/pg-kinetic-core/src/traffic/backpressure.rs; Gate/Checkout is checkouts
--                     from one gate at the same time
-- The modules called Tests run the theorems on small inputs.
--
-- A parser that takes `&mut BytesMut` is a function from the buffer to its result and the buffer
-- that is left. A method that takes `&mut self` returns the new state. A byte is a number below
-- 256 and an i32 is its bit pattern, a number below 2^32, which `i32_ltb` compares as signed; a
-- text is its UTF-8 bytes. A value of a policy rule is, as a SQL text, a list of characters. An
-- LSN is a number and a shard id is its text. A SQL text is the list of its characters, each a
-- Unicode code point, and a length in bytes is that of its UTF-8; where the source slices a text
-- at a byte that may be inside a character, `none` says that it panics. The counters of the
-- catalog wrap around at 2^64, and its theorems say where they must not.
--
-- A loop runs on fuel, and `none` on the outside means that the fuel ran out. The frames of a
-- buffer and of a cycle, the fields of an error and the parameters of a startup packet take the
-- length and one more, since each takes some bytes: theorems say that `none` does not come up. A
-- cancel key is drawn from a list of nonces, and `none` means that the list was too short. The
-- loops over a SQL text that skip comments, drop `explain` or make tokens take the length of the
-- text and one more, and theorems say that more fuel changes nothing, since each round takes a
-- character; the other loops over a text take its length for the same reason. The digits of a u64
-- take 20 in base 10, those of a u32 8 in base 16.
--
-- What runs at the same time is a step relation: a step is one access to what is shared, and any
-- task may take the next. Atomics are sequentially consistent, but in Drain, where a load may also
-- give an older value, as the orderings of the source allow. The digest and the nonces of a cancel
-- key are arguments, as are the equality of route keys and the key that the iterator of a hash map
-- gives first. The guardrails take the text of their file. Times are numbers from some start, and
-- a duration to a later start is 0.
--
-- Not modelled: sockets, the runtime's tasks and timers, TLS; the text of error messages and
-- metric labels; reading and watching the file of the guardrails; the bridge from a shard decision
-- to a route; the policy engine that contexts and actions of rules are made for; the pool,
-- configuration, administration and observability.
pub mod Prelude
pub mod Wire
pub mod Routing
pub mod Session
pub mod Prepared
pub mod Lsn
pub mod Breaker
pub mod Cancel
pub mod Gate
pub mod Sharding
pub mod Sql
pub mod Guardrails
pub mod Drain
pub mod Pause
pub mod Policy
pub mod Cycle
