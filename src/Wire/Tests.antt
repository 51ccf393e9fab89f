-- ===== src/Wire/Tests.antt =====
-- Small runs of the wire protocol (crates/pg-kinetic-wire), and the theorems at work on them.
mod Server
mod Startup
use pg_kinetic.Prelude.{
  ℕ, ◌+◌, ◌-◌, ◌^◌, ◌<◌, Option, none, some, List, [], ◌∷◌, ◌++◌, ◌≡◌, ◌≢◌, ◌↔◌, ◌⊎◌, inl, inr,
  refl, sym, arith, length, All, Bytes, codes, append_assoc,
}
use pg_kinetic.Wire.Buffer.{IsByte, put_i32, put_i16, position}
use pg_kinetic.Wire.Utf8.{IsUtf8, from_utf8, is_utf8}
use pg_kinetic.Wire.Protocol.{
  WireError, Result, ok, err, FrontendTag, frontend_byte, BackendTag, backend_byte,
}
use pg_kinetic.Wire.Frame.{
  FrontendFrame, parse_frontend_frame, encode_frontend_frame, parse_frontend_cycle_frames,
}
use pg_kinetic.Wire.Frame.RoundTrip.{
  parse-encode, encode-parse, parse_keeps_buffer, parse_prefix, Fits,
}
use pg_kinetic.Wire.Frame.Cycle.{
  encode_all, parse_frontend_cycle_frames-encode_all, parse_frontend_cycle_frames_total,
}
use pg_kinetic.Wire.Message.Cstr.{IsCstr}
use pg_kinetic.Wire.Message
use pg_kinetic.Wire.Message.{
  ParseMessage, parse_parse_message, parse_bind_statement_name, DescribeTarget, CloseTarget,
  parse_describe_target, parse_close_target,
}
use pg_kinetic.Wire.Rewrite
use pg_kinetic.Wire.Rewrite.{
  rewrite_parse_statement_name, rewrite_bind_statement_name, rewrite_describe_statement_name,
  rewrite_close_statement_name, build_parse_frame,
}
use pg_kinetic.Wire.Rewrite.Build.{parse_parse_message-build_parse_frame}
use pg_kinetic.Wire.Rewrite.Names.{
  read_cstr_agree, rewrite_parse_statement_name_renames, rewrite_bind_statement_name_renames,
  rewrite_describe_statement_name_renames, rewrite_close_statement_name_renames, bind_frame,
  describe_renamed, close_renamed,
}

-- A frame with a payload, and one without.
abbrev select_one : FrontendFrame
select_one = record { tag = frontend_byte FrontendTag.query; payload = codes "SELECT 1" ++ 0 ∷ [] }

abbrev sync : FrontendFrame
sync = record { tag = frontend_byte FrontendTag.sync; payload = [] }

sync_bytes : encode_frontend_frame sync ≡ b'S' ∷ 0 ∷ 0 ∷ 0 ∷ 4 ∷ []
unfolding encode_frontend_frame put_i32 frontend_byte
sync_bytes = refl

parse-encode_example :
    parse_frontend_frame (encode_frontend_frame select_one ++ (b'S' ∷ 0 ∷ []))
    ≡ (ok (some select_one), b'S' ∷ 0 ∷ [])
parse-encode_example = parse-encode select_one (b'S' ∷ 0 ∷ []) (omega arith)

sync_read : parse_frontend_frame (b'S' ∷ 0 ∷ 0 ∷ 0 ∷ 4 ∷ 7 ∷ []) ≡ (ok (some sync), 7 ∷ [])
unfolding parse_frontend_frame frontend_byte
sync_read = refl

encode-parse_example : b'S' ∷ 0 ∷ 0 ∷ 0 ∷ 4 ∷ 7 ∷ [] ≡ encode_frontend_frame sync ++ (7 ∷ [])
encode-parse_example =
    encode-parse (b'S' ∷ 0 ∷ 0 ∷ 0 ∷ 4 ∷ 7 ∷ []) (7 ∷ []) sync (ground arith) sync_read

first_bytes_wait : parse_frontend_frame (b'S' ∷ 0 ∷ []) ≡ (ok none, b'S' ∷ 0 ∷ [])
unfolding parse_frontend_frame
first_bytes_wait = refl

abbrev first_bytes : Bytes
first_bytes = b'S' ∷ 0 ∷ []

parse_keeps_buffer_example : first_bytes ≡ first_bytes
parse_keeps_buffer_example =
    parse_keeps_buffer first_bytes first_bytes WireError.incomplete_frame (inl first_bytes_wait)

-- Names, and a Parse frame with one parameter.
abbrev old_name : Bytes
old_name = codes "s1"

abbrev new_name : Bytes
new_name = codes "pgk_7_1"

old_name-IsCstr : IsCstr old_name
unfolding is_utf8
old_name-IsCstr = ground arith

new_name-IsCstr : IsCstr new_name
unfolding is_utf8
new_name-IsCstr = ground arith

query-IsCstr : IsCstr (codes "SELECT $1")
unfolding is_utf8
query-IsCstr = ground arith

abbrev parsed : ParseMessage
parsed = record {
  statement_name = old_name;
  query = codes "SELECT $1";
  parameter_type_oids = 23 ∷ [];
}

parse_understood :
    parse_parse_message (build_parse_frame old_name (codes "SELECT $1") (23 ∷ []))
    ≡ ok (some parsed)
unfolding parse_parse_message build_parse_frame frontend_byte Message.read_cstr put_i16 put_i32
    position from_utf8 Message.parse_oids Message.read_oids
parse_understood = refl

rewrite_parse_statement_name_example :
    (g : FrontendFrame) × (rewrite_parse_statement_name
        (build_parse_frame old_name (codes "SELECT $1") (23 ∷ []))
        new_name
      ≡ ok g)
    × (parse_parse_message g ≡ ok (some (record parsed { statement_name = new_name })))
rewrite_parse_statement_name_example =
    rewrite_parse_statement_name_renames (build_parse_frame old_name (codes "SELECT $1") (23 ∷ []))
      parsed new_name parse_understood new_name-IsCstr

abbrev bind : FrontendFrame
bind = bind_frame (codes "p" ++ 0 ∷ (old_name ++ 0 ∷ 0 ∷ 0 ∷ []))

bind_understood : parse_bind_statement_name bind ≡ ok (some old_name)
unfolding parse_bind_statement_name frontend_byte Message.read_cstr position from_utf8
bind_understood = refl

rewrite_bind_statement_name_example :
    (portal : Bytes) × (post : Bytes) × (bind ≡ bind_frame (portal ++ 0 ∷ (old_name ++ 0 ∷ post)))
    × (rewrite_bind_statement_name bind new_name
        ≡ ok (bind_frame (portal ++ 0 ∷ (new_name ++ 0 ∷ post))))
    × (parse_bind_statement_name (bind_frame (portal ++ 0 ∷ (new_name ++ 0 ∷ post)))
        ≡ ok (some new_name))
rewrite_bind_statement_name_example =
    rewrite_bind_statement_name_renames bind old_name new_name bind_understood new_name-IsCstr

abbrev describe : FrontendFrame
describe = record {
  tag = frontend_byte FrontendTag.describe;
  payload = b'S' ∷ (old_name ++ 0 ∷ []);
}

describe_understood : parse_describe_target describe ≡ ok (some (DescribeTarget.statement old_name))
unfolding parse_describe_target frontend_byte Message.read_cstr position from_utf8
describe_understood = refl

abbrev close : FrontendFrame
close = record { tag = frontend_byte FrontendTag.close; payload = b'P' ∷ (old_name ++ 0 ∷ []) }

close_understood : parse_close_target close ≡ ok (some (CloseTarget.portal old_name))
unfolding parse_close_target frontend_byte Message.read_cstr position from_utf8
close_understood = refl
