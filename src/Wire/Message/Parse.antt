-- ===== src/Wire/Message/Parse.antt =====
-- The Parse message: what `parse_parse_message` returns, in terms of the bytes behind the name.
use pg_kinetic.Prelude.{
  ℕ, ◌+◌, ◌*◌, ◌≡◌, refl, Option, some, ◌∷◌, ◌++◌, arith, length, Bytes, ==_refl,
}
use pg_kinetic.Wire.Frame.{FrontendFrame}
use pg_kinetic.Wire.Message.Cstr.{IsCstr, shift, read_cstr_next, read_cstr-append, get_range_next}
use pg_kinetic.Wire.Message.{ParseMessage, read_cstr, read_oids, parse_oids, parse_parse_message}
use pg_kinetic.Wire.Protocol.{Result, ok, err, ◌>>=◌, frontend_byte, FrontendTag}

abbrev pub parse_frame : Bytes → FrontendFrame
parse_frame payload = record { tag = frontend_byte FrontendTag.parse; payload = payload }

read_oids_next :
    (v post : Bytes) (n count : ℕ)
    → read_oids (v ++ 0 ∷ post) (length v + 1 + n) count ≡ read_oids post n count
unfolding read_oids
read_oids_next v post n count =
    let e : length v + 1 + n + count * 4 ≡ length v + 1 + (n + count * 4) = omega arith in
    rw (e, get_range_next v post n (n + count * 4))

pub parse_oids_next :
    (v post : Bytes) (n : ℕ) → parse_oids (v ++ 0 ∷ post) (length v + 1 + n) ≡ parse_oids post n
unfolding parse_oids
parse_oids_next v post n =
    let e : length v + 1 + n + 2 ≡ length v + 1 + (n + 2) = omega arith in
    rw (e, get_range_next v post n (n + 2)) (simp (read_oids_next v post (n + 2)))

-- The message whose name is `name` and whose other bytes are `post`.
abbrev pub message_of : Bytes → Bytes → Result (Option ParseMessage)
message_of name post = do
  (text, offset) ← read_cstr post 0
  oids ← parse_oids post offset
  ok (some (record { statement_name = name; query = text; parameter_type_oids = oids }))

pub parse_named :
    (name post : Bytes)
    → IsCstr name
    → parse_parse_message (parse_frame (name ++ 0 ∷ post)) ≡ message_of name post
unfolding parse_parse_message
parse_named name post c =
    let e : length name + 1 ≡ length name + 1 + 0 = omega arith in
    rw
      (
        ==_refl (frontend_byte FrontendTag.parse),
        read_cstr-append name post c,
        e,
        read_cstr_next name post 0,
      )
      (from_post (read_cstr post 0))
  where
    rest : Bytes → Bytes × ℕ → Result (Option ParseMessage)
    rest payload (text, offset) = do
      oids ← parse_oids payload offset
      ok (some (record { statement_name = name; query = text; parameter_type_oids = oids }))

    from_post :
        (r : Result (Bytes × ℕ))
        → (shift (length name + 1) r >>= rest (name ++ 0 ∷ post)) ≡ (r >>= rest post)
    from_post (ok (text, offset)) = rw (parse_oids_next name post offset)
    from_post (err e) = refl
