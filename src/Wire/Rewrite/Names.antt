-- ===== src/Wire/Rewrite/Names.antt =====
-- Renaming statements in frontend frames (crates/pg-kinetic-wire/src/rewrite.rs).
use pg_kinetic.Prelude.{
  ℕ, ◌+◌, ◌-◌, ◌≡◌, refl, ap, sym, ◌∙◌, inl, inr, some, [], ◌∷◌, ◌++◌, arith, ltb, length, drop,
  Bytes, append_assoc, Bool-cases, Option-cases, ==_refl,
}
use pg_kinetic.Wire.Buffer.{position}
use pg_kinetic.Wire.Frame.{FrontendFrame}
use pg_kinetic.Wire.Message.Cstr.{
  IsCstr, shift, read_cstr_add, read_cstr-append, read_cstr_split, read_cstr_next, drop_next,
  take_next, drop_next_add,
}
use pg_kinetic.Wire.Message.Parse.{parse_frame, parse_named, message_of}
use pg_kinetic.Wire.Message
use pg_kinetic.Wire.Message.{
  ParseMessage, parse_parse_message, parse_bind_statement_name, DescribeTarget, CloseTarget,
  parse_describe_target, parse_close_target, statement_kind,
}
use pg_kinetic.Wire.Protocol.{Result-cases, ok, frontend_byte, FrontendTag}
use pg_kinetic.Wire.Rewrite
use pg_kinetic.Wire.Rewrite.{
  write_cstr, rewrite_parse_statement_name, rewrite_bind_statement_name,
  rewrite_describe_statement_name, rewrite_close_statement_name,
}

-- The two readers of a text up to NUL, of messages and of rewrites, agree on all bytes and offsets.
pub read_cstr_agree :
    (bytes : Bytes) (start : ℕ) → Rewrite.read_cstr bytes start ≡ Message.read_cstr bytes start
unfolding Rewrite.read_cstr Message.read_cstr
read_cstr_agree bytes start = elim (Bool-cases (ltb (length bytes) start)) [
  | inl past ↦ ground arith
  | inr inside ↦ elim (Option-cases (position (drop start bytes))) [
    | inl e ↦ ground arith
    | inr (n, e) ↦ let d : start + n - start ≡ n = omega arith in ground arith
  ]
]

message_of_renamed :
    (old name post : Bytes) (m : ParseMessage)
    → message_of old post ≡ ok (some m)
    → message_of name post ≡ ok (some (record m { statement_name = name }))
message_of_renamed old name post m h = ground arith

-- The tag and the parts of a Parse frame that is understood.
parsed_shape :
    (f : FrontendFrame) (m : ParseMessage)
    → parse_parse_message f ≡ ok (some m)
    → (old : Bytes) × (post : Bytes) × (f ≡ parse_frame (old ++ 0 ∷ post)) × IsCstr old
unfolding parse_parse_message
parsed_shape f m h = elim (Result-cases (Message.read_cstr f.payload 0)) [
  | inl ((old, o), e) ↦
      let s = read_cstr_split f.payload e in
      let tag : f.tag ≡ frontend_byte FrontendTag.parse = ground arith in
      (old, drop o f.payload, ground (arith, s.0), s.1)
  | inr (x, e) ↦ absurd (ground arith)
]

rewrite_named :
    (old name post : Bytes)
    → IsCstr old
    → rewrite_parse_statement_name (parse_frame (old ++ 0 ∷ post)) name
      ≡ ok (parse_frame (name ++ 0 ∷ post))
unfolding rewrite_parse_statement_name
rewrite_named old name post c = rw (
  ==_refl (frontend_byte FrontendTag.parse),
  read_cstr_agree (old ++ 0 ∷ post) 0,
  read_cstr-append old post c,
  drop_next old post,
  append_assoc name (0 ∷ []) post,
)

-- A Parse frame that is understood can be given any text without NUL for its name, and is then read
-- as before but for the name.
pub rewrite_parse_statement_name_renames :
    (f : FrontendFrame) (m : ParseMessage) (name : Bytes)
    → parse_parse_message f ≡ ok (some m)
    → IsCstr name
    → (g : FrontendFrame) × (rewrite_parse_statement_name f name ≡ ok g)
      × (parse_parse_message g ≡ ok (some (record m { statement_name = name })))
rewrite_parse_statement_name_renames f m name h c =
    let (old, post, shape, oc) = parsed_shape f m h in
    (
      parse_frame (name ++ 0 ∷ post),
      rw shape (rewrite_named old name post oc),
      parse_named name post c
          ∙ message_of_renamed old name post m
              (sym (parse_named old post oc) ∙ ap parse_parse_message (sym shape) ∙ h),
    )

abbrev pub bind_frame : Bytes → FrontendFrame
bind_frame payload = record { tag = frontend_byte FrontendTag.bind; payload = payload }

bound_name :
    (portal name post : Bytes)
    → IsCstr portal
    → IsCstr name
    → parse_bind_statement_name (bind_frame (portal ++ 0 ∷ (name ++ 0 ∷ post))) ≡ ok (some name)
unfolding parse_bind_statement_name
bound_name portal name post cp cn =
    let e : length portal + 1 ≡ length portal + 1 + 0 = omega arith in
    rw (
      ==_refl (frontend_byte FrontendTag.bind),
      read_cstr-append portal (name ++ 0 ∷ post) cp,
      e,
      read_cstr_next portal (name ++ 0 ∷ post) 0,
      read_cstr-append name post cn,
    )

bound_shape :
    (f : FrontendFrame) (old : Bytes)
    → parse_bind_statement_name f ≡ ok (some old)
    → (portal : Bytes) × (post : Bytes) × (f ≡ bind_frame (portal ++ 0 ∷ (old ++ 0 ∷ post)))
      × IsCstr portal
      × IsCstr old
unfolding parse_bind_statement_name
bound_shape f old h = elim (Result-cases (Message.read_cstr f.payload 0)) [
  | inr (x, e) ↦ absurd (ground arith)
  | inl ((portal, o), e) ↦
      let s = read_cstr_split f.payload e in
      let t : Bytes = drop o f.payload in
      let tag : f.tag ≡ frontend_byte FrontendTag.bind = ground arith in
      let behind : Message.read_cstr f.payload o
          ≡ shift (length portal + 1) (Message.read_cstr t 0) =
        ground (arith, read_cstr_next portal t 0, s) in
      elim (Result-cases (Message.read_cstr t 0)) [
        | inr (x, e') ↦ absurd (ground arith)
        | inl ((name, k), e') ↦
            let s' = read_cstr_split t e' in
            let same : name ≡ old = ground arith in
            (portal, drop k t, ground (arith, s.0, s'.0), s.1, ground (arith, s'.1))
      ]
]

rewrite_bound :
    (portal old name post : Bytes)
    → IsCstr portal
    → IsCstr old
    → rewrite_bind_statement_name (bind_frame (portal ++ 0 ∷ (old ++ 0 ∷ post))) name
      ≡ ok (bind_frame (portal ++ 0 ∷ (name ++ 0 ∷ post)))
unfolding rewrite_bind_statement_name
rewrite_bound portal old name post cp co =
    let e : length portal + 1 ≡ length portal + 1 + 0 = omega arith in
    let first : Message.read_cstr (portal ++ 0 ∷ (old ++ 0 ∷ post)) 0
        ≡ ok (portal, length portal + 1) =
      read_cstr-append portal (old ++ 0 ∷ post) cp in
    let second : Message.read_cstr (portal ++ 0 ∷ (old ++ 0 ∷ post)) (length portal + 1)
        ≡ ok (old, length portal + 1 + (length old + 1)) =
      rw (e, read_cstr_next portal (old ++ 0 ∷ post) 0, read_cstr-append old post co)
        (ground arith) in
    rw (
      ==_refl (frontend_byte FrontendTag.bind),
      read_cstr_agree (portal ++ 0 ∷ (old ++ 0 ∷ post)) 0,
      first,
      read_cstr_agree (portal ++ 0 ∷ (old ++ 0 ∷ post)) (length portal + 1),
      second,
      take_next portal (old ++ 0 ∷ post),
      drop_next_add portal (old ++ 0 ∷ post) (length old + 1),
      drop_next old post,
      append_assoc name (0 ∷ []) post,
      append_assoc portal (0 ∷ []) (name ++ 0 ∷ post),
    )

-- A Bind frame that is understood, given any text without NUL for its statement, is renamed in the
-- statement name alone: the portal and all that follows the name stay.
pub rewrite_bind_statement_name_renames :
    (f : FrontendFrame) (old name : Bytes)
    → parse_bind_statement_name f ≡ ok (some old)
    → IsCstr name
    → (portal : Bytes) × (post : Bytes) × (f ≡ bind_frame (portal ++ 0 ∷ (old ++ 0 ∷ post)))
      × (rewrite_bind_statement_name f name ≡ ok (bind_frame (portal ++ 0 ∷ (name ++ 0 ∷ post))))
      × (parse_bind_statement_name (bind_frame (portal ++ 0 ∷ (name ++ 0 ∷ post))) ≡ ok (some name))
rewrite_bind_statement_name_renames f old name h c =
    let (portal, post, shape, cp, co) = bound_shape f old h in
    (
      portal,
      post,
      shape,
      rw shape (rewrite_bound portal old name post cp co),
      bound_name portal name post cp c,
    )

abbrev pub describe_renamed : DescribeTarget → Bytes → DescribeTarget
describe_renamed (DescribeTarget.statement old) name = DescribeTarget.statement name
describe_renamed (DescribeTarget.portal p) name = DescribeTarget.portal p

abbrev pub close_renamed : CloseTarget → Bytes → CloseTarget
close_renamed (CloseTarget.statement old) name = CloseTarget.statement name
close_renamed (CloseTarget.portal p) name = CloseTarget.portal p

-- Behind the kind byte the name is read.
read_kind :
    (kind : ℕ) (name : Bytes)
    → IsCstr name
    → Message.read_cstr (kind ∷ write_cstr name) 1 ≡ ok (name, 1 + (length name + 1))
read_kind kind name c =
    rw (read_cstr_add (kind ∷ []) (write_cstr name) 0, read_cstr-append name [] c) refl

-- A Describe frame that is understood is renamed to any text without NUL if it names a statement;
-- one that names a portal is kept.
pub rewrite_describe_statement_name_renames :
    (f : FrontendFrame) (target : DescribeTarget) (name : Bytes)
    → parse_describe_target f ≡ ok (some target)
    → IsCstr name
    → (g : FrontendFrame) × (rewrite_describe_statement_name f name ≡ ok g)
      × (parse_describe_target g ≡ ok (some (describe_renamed target name)))
unfolding rewrite_describe_statement_name parse_describe_target
rewrite_describe_statement_name_renames f (DescribeTarget.statement old) name h c =
    let g : FrontendFrame = record { tag = f.tag; payload = statement_kind ∷ write_cstr name } in
    (g, ground arith, ground (arith, read_kind statement_kind name c))
rewrite_describe_statement_name_renames f (DescribeTarget.portal p) name h c = (f, ground arith, h)

-- A Close frame that is understood is renamed to any text without NUL if it names a statement;
-- one that names a portal is kept.
pub rewrite_close_statement_name_renames :
    (f : FrontendFrame) (target : CloseTarget) (name : Bytes)
    → parse_close_target f ≡ ok (some target)
    → IsCstr name
    → (g : FrontendFrame) × (rewrite_close_statement_name f name ≡ ok g)
      × (parse_close_target g ≡ ok (some (close_renamed target name)))
unfolding rewrite_close_statement_name parse_close_target
rewrite_close_statement_name_renames f (CloseTarget.statement old) name h c =
    let g : FrontendFrame = record { tag = f.tag; payload = statement_kind ∷ write_cstr name } in
    (g, ground arith, ground (arith, read_kind statement_kind name c))
rewrite_close_statement_name_renames f (CloseTarget.portal p) name h c = (f, ground arith, h)
