-- ===== src/Session/Virtual/Written.antt =====
-- A text that writes, in a transaction of crates/pg-kinetic-core/src/protocol/virtual_session.rs.
use pg_kinetic.Prelude.{
  Bool, true, false, ◌&&◌, ◌||◌, Option, none, some, List, [], ◌∷◌, ◌++◌, ◌≡◌, ◌≢◌, refl, arith,
  All, ◌⊎◌, inl, codes, Option-cases, Bool-cases, ◌==◌, inr,
}
use pg_kinetic.Routing.{BackendRole, write}
use pg_kinetic.Session.Sql.{SqlCommand}
use pg_kinetic.Session.Virtual.Events.{IsRouted, command-IsRouted}
use pg_kinetic.Session.Virtual.Routes.{
  is_boundary_command, HasWritten, command-HasWritten, first_write, written_role,
}
use pg_kinetic.Session.Virtual.Texts.{
  is_write, is_commit, is_forced, apply_statements, apply_transaction_sql_with_routing,
}
use pg_kinetic.Session.Virtual.{
  VirtualSession, in_transaction, apply_transaction_command, apply_control, mark_transaction_write,
  set_transaction_access_mode, current_transaction_target_role,
}
use pg_kinetic.Sql.Chars.{Text, trim, normalize, starts_with}
use pg_kinetic.Sql.Classify.{classify_sql}
use pg_kinetic.Sql.Commands.{
  trim_semicolons, parse_begin_transaction, parse_set_transaction, classify_rest, classify,
}
use pg_kinetic.Sql.Statements.{split_top_level_statements}

-- A statement that is no SET, for which `parse_set` may panic.
abbrev pub IsNoSet : Text → Type 0
IsNoSet statement =
    starts_with (codes "set ") (normalize (trim (trim_semicolons (trim statement)))) ≡ false

-- A statement whose command, if it has one, begins and ends no transaction.
abbrev pub IsInside : Text → Type 0
IsInside statement =
    (command : SqlCommand) → classify statement ≡ some command → is_boundary_command command ≡ false

starts_with-longer : (p q s : Text) → starts_with p s ≡ false → starts_with (p ++ q) s ≡ false
unfolding starts_with
starts_with-longer [] q s h = ground arith
starts_with-longer (c ∷ p) q [] h = refl
starts_with-longer (c ∷ p) q (d ∷ s) h = elim (Bool-cases (c == d)) [
  | inl e ↦ let g : starts_with p s ≡ false = ground arith in rw e (starts_with-longer p q s g)
  | inr e ↦ rw e refl
]

classify_rest-some :
    (trimmed normalized : Text)
    → starts_with (codes "set ") normalized ≡ false
    → classify_rest trimmed normalized ≢ none
unfolding classify_rest
classify_rest-some trimmed normalized h =
    let g = starts_with-longer (codes "set ") (codes "local ") normalized h in ground (arith, g)

classify-some :
    (statement : Text)
    → IsNoSet statement
    → (command : SqlCommand) × (classify statement ≡ some command)
unfolding classify
classify-some statement h =
    let trimmed = trim (trim_semicolons (trim statement)) in
    elim (Option-cases (parse_begin_transaction (normalize trimmed))) [
      | inr (mode, e) ↦ rw (classify, e) (SqlCommand.begin mode, refl)
      | inl b ↦ elim (Option-cases (parse_set_transaction (normalize trimmed))) [
        | inr (mode, e) ↦ rw (classify, b, e) (SqlCommand.set_transaction mode, refl)
        | inl t ↦ elim (Option-cases (classify_rest trimmed (normalize trimmed))) [
          | inr (c, e) ↦ rw (classify, b, t) (c, e)
          | inl e ↦ absurd (classify_rest-some trimmed (normalize trimmed) h e)
        ]
      ]
    ]

abbrev pub AnyWrites : List Text → Type 0
AnyWrites [] = ⊥
AnyWrites (s ∷ ss) = (classify_sql s ≡ write) ⊎ AnyWrites ss

abbrev Ends : (VirtualSession → Type 0) → Option (Bool × VirtualSession) → Type 0
Ends P none = ⊥
Ends P (some r) = P r.1

apply_statements_next :
    (track : Bool) (t : Text) (ts : List Text) (b : Bool) (s : VirtualSession) (c : SqlCommand)
    → classify t ≡ some c
    → apply_statements track (t ∷ ts) b s
      ≡ apply_statements track ts
          (b || is_commit c && is_forced s.read_routing_transaction)
          (apply_transaction_command c (track && is_write (classify_sql t)) s)
unfolding apply_statements
apply_statements_next track t ts b s c e = rw (apply_statements, e) refl

keeps_open :
    (c : SqlCommand) (w : Bool) (s : VirtualSession)
    → is_boundary_command c ≡ false
    → s.transaction ≡ in_transaction
    → (apply_transaction_command c w s).transaction ≡ in_transaction
unfolding apply_transaction_command set_transaction_access_mode mark_transaction_write
keeps_open c w s h e = ground arith

control_open :
    (c : SqlCommand) (s : VirtualSession)
    → is_boundary_command c ≡ false
    → s.transaction ≡ in_transaction
    → (apply_control c s).transaction ≡ in_transaction
unfolding apply_control set_transaction_access_mode
control_open c s h e = ground arith

writes_open :
    (c : SqlCommand) (s : VirtualSession)
    → is_boundary_command c ≡ false
    → s.transaction ≡ in_transaction
    → HasWritten (apply_transaction_command c true s)
unfolding apply_transaction_command
writes_open c s h e = first_write (apply_control c s) (control_open c s h e)

abbrev GoesToPrimary : VirtualSession → Type 0
GoesToPrimary s = current_transaction_target_role s ≡ some BackendRole.primary

written-Ends :
    (ss : List Text) (b : Bool) (s : VirtualSession)
    → All IsNoSet ss
    → All IsInside ss
    → IsRouted s
    → HasWritten s
    → Ends GoesToPrimary (apply_statements true ss b s)
unfolding apply_statements
written-Ends [] b s ns h r w = written_role s r w
written-Ends (t ∷ ts) b s (n, ns) (h, hs) r w =
    let (c, e) = classify-some t n in
    let inside = h c e in
    rw (apply_statements_next true t ts b s c e) (
      written-Ends ts _ (apply_transaction_command c (is_write (classify_sql t)) s) ns hs
        (command-IsRouted c (is_write (classify_sql t)) s r)
        (command-HasWritten c (is_write (classify_sql t)) s inside w))

writing-Ends :
    (ss : List Text) (b : Bool) (s : VirtualSession)
    → All IsNoSet ss
    → All IsInside ss
    → AnyWrites ss
    → IsRouted s
    → s.transaction ≡ in_transaction
    → Ends GoesToPrimary (apply_statements true ss b s)
writing-Ends [] b s ns h any r open_ = absurd any
writing-Ends (t ∷ ts) b s (n, ns) (h, hs) (inl k) r open_ =
    let (c, e) = classify-some t n in
    let inside = h c e in
    rw (apply_statements_next true t ts b s c e, k)
      (written-Ends ts _ (apply_transaction_command c true s) ns hs (command-IsRouted c true s r)
        (writes_open c s inside open_))
writing-Ends (t ∷ ts) b s (n, ns) (h, hs) (inr any) r open_ =
    let (c, e) = classify-some t n in
    let inside = h c e in
    rw (apply_statements_next true t ts b s c e) (
      writing-Ends ts _ (apply_transaction_command c (is_write (classify_sql t)) s) ns hs any
        (command-IsRouted c (is_write (classify_sql t)) s r)
        (keeps_open c (is_write (classify_sql t)) s inside open_))

Ends-session :
    (P : VirtualSession → Type 0) (o : Option (Bool × VirtualSession))
    → Ends P o
    → (r : Bool × VirtualSession) × ((o ≡ some r) × P r.1)
Ends-session P none h = absurd h
Ends-session P (some r) h = (r, (refl, h))

-- A text of which some statement is classed as a write, none is a SET, and none begins or ends a
-- transaction, is followed in an open transaction without a panic, and the transaction goes to the
-- primary then.
pub written_text_goes_to_primary :
    (sql : Text) (s : VirtualSession)
    → All IsNoSet (split_top_level_statements sql)
    → All IsInside (split_top_level_statements sql)
    → AnyWrites (split_top_level_statements sql)
    → IsRouted s
    → s.transaction ≡ in_transaction
    → (r : Bool × VirtualSession) × ((apply_transaction_sql_with_routing sql true s ≡ some r)
        × (current_transaction_target_role r.1 ≡ some BackendRole.primary))
unfolding apply_transaction_sql_with_routing
written_text_goes_to_primary sql s no_set inside writes routed open_ =
    Ends-session GoesToPrimary (apply_transaction_sql_with_routing sql true s)
      (writing-Ends (split_top_level_statements sql) false s no_set inside writes routed open_)
