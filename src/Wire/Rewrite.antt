-- ===== src/Wire/Rewrite.antt =====
-- crates/pg-kinetic-wire/src/rewrite.rs: the client's statement names become the backend's.
-- `encode_frontend_frame` is in Wire/Frame.antt.
pub mod Build
pub mod Names
use pg_kinetic.Prelude.{
  ℕ, ◌+◌, ◌-◌, ◌^◌, ◌%◌, Bool, false, Option, none, some, List, [], ◌∷◌, ◌++◌, ltb, ◌==◌,
  if◌then◌else◌, length, take, drop, Bytes,
}
use pg_kinetic.Wire.Buffer.{position, put_i16, put_i32}
use pg_kinetic.Wire.Utf8.{from_utf8}
use pg_kinetic.Wire.Frame.{FrontendFrame}
use pg_kinetic.Wire.Message.{statement_kind, first}
use pg_kinetic.Wire.Protocol.{
  Result, ok, err, ◌>>=◌, ok_or, invalid_utf8, incomplete_frame, frontend_byte, FrontendTag,
}

unfoldable pub read_cstr : Bytes → ℕ → Result (Bytes × ℕ)
read_cstr bytes start =
    let found : Result (Bytes × ℕ) = do
      relative_end ← ok_or (position (drop start bytes)) incomplete_frame
      let end = start + relative_end
      value ← ok_or (from_utf8 (take (end - start) (drop start bytes))) invalid_utf8
      ok (value, end + 1)
    in if ltb (length bytes) start then err incomplete_frame else found

-- What is appended to the buffer.
abbrev pub write_cstr : Bytes → Bytes
write_cstr value = value ++ 0 ∷ []

unfoldable pub rewrite_parse_statement_name : FrontendFrame → Bytes → Result FrontendFrame
rewrite_parse_statement_name frame backend_name =
    let rewritten : Result FrontendFrame = do
      (_, after_name) ← read_cstr frame.payload 0
      ok (record {
        tag = frame.tag;
        payload = write_cstr backend_name ++ drop after_name frame.payload;
      })
    in if frame.tag == frontend_byte FrontendTag.parse then rewritten else ok frame

unfoldable pub rewrite_bind_statement_name : FrontendFrame → Bytes → Result FrontendFrame
rewrite_bind_statement_name frame backend_name =
    let rewritten : Result FrontendFrame = do
      (_, after_portal) ← read_cstr frame.payload 0
      (_, after_statement) ← read_cstr frame.payload after_portal
      ok (record {
        tag = frame.tag;
        payload =
            take after_portal frame.payload
            ++ (write_cstr backend_name ++ drop after_statement frame.payload);
      })
    in if frame.tag == frontend_byte FrontendTag.bind then rewritten else ok frame

abbrev pub is_statement : Option ℕ → Bool
is_statement (some kind) = kind == statement_kind
is_statement none = false

unfoldable pub rewrite_statement_target : FrontendFrame → ℕ → Bytes → Result FrontendFrame
rewrite_statement_target frame expected_tag backend_name =
    if frame.tag == expected_tag
    then (if is_statement (first frame.payload)
        then ok (record { tag = frame.tag; payload = statement_kind ∷ write_cstr backend_name })
        else ok frame)
    else ok frame

unfoldable pub rewrite_describe_statement_name : FrontendFrame → Bytes → Result FrontendFrame
unfolding rewrite_statement_target
rewrite_describe_statement_name frame backend_name =
    rewrite_statement_target frame (frontend_byte FrontendTag.describe) backend_name

unfoldable pub rewrite_close_statement_name : FrontendFrame → Bytes → Result FrontendFrame
unfolding rewrite_statement_target
rewrite_close_statement_name frame backend_name =
    rewrite_statement_target frame (frontend_byte FrontendTag.close) backend_name

-- The loop over the parameter types.
unfoldable pub put_oids : List ℕ → Bytes
put_oids [] = []
put_oids (oid ∷ oids) = put_i32 oid ++ put_oids oids

-- `len() as i16` wraps.
unfoldable pub build_parse_frame : Bytes → Bytes → List ℕ → FrontendFrame
unfolding put_oids
build_parse_frame backend_name query parameter_type_oids = record {
  tag = frontend_byte FrontendTag.parse;
  payload =
      write_cstr backend_name
      ++ (write_cstr query
          ++ (put_i16 (length parameter_type_oids % 2 ^ 16) ++ put_oids parameter_type_oids));
}
