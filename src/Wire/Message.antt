-- ===== src/Wire/Message.antt =====
-- crates/pg-kinetic-wire/src/message.rs: the frontend messages that the proxy reads.
pub mod Cstr
pub mod Parse
use pg_kinetic.Prelude.{
  ℕ, zero, suc, ◌+◌, ◌*◌, ◌^◌, Option, none, some, List, [], ◌∷◌, ltb, ◌==◌, if◌then◌else◌, take,
  Bytes,
}
use pg_kinetic.Wire.Buffer.{get_from, get_range, position, i32_of, i16_of}
use pg_kinetic.Wire.Utf8.{from_utf8}
use pg_kinetic.Wire.Frame.{FrontendFrame}
use pg_kinetic.Wire.Protocol.{
  Result, ok, err, ◌>>=◌, ok_or, invalid_utf8, incomplete_frame, frontend_byte, FrontendTag,
}

abbrev pub statement_kind : ℕ
statement_kind = b'S'

abbrev pub portal_kind : ℕ
portal_kind = b'P'

pub record ParseMessage : Type 0 where
  pub statement_name : Bytes
  pub query : Bytes
  pub parameter_type_oids : List ℕ

pub data DescribeTarget : Type 0 where
  statement portal : Bytes → DescribeTarget

pub data CloseTarget : Type 0 where
  statement portal : Bytes → CloseTarget

-- The text from `start` to the next NUL, and the offset behind that.
unfoldable pub read_cstr : Bytes → ℕ → Result (Bytes × ℕ)
read_cstr bytes start = do
  remaining ← ok_or (get_from bytes start) incomplete_frame
  terminator ← ok_or (position remaining) incomplete_frame
  value ← ok_or (from_utf8 (take terminator remaining)) invalid_utf8
  ok (value, start + terminator + 1)

unfoldable pub parse_simple_query : FrontendFrame → Result (Option Bytes)
parse_simple_query frame =
    let found : Result (Option Bytes) = do (text, _) ← read_cstr frame.payload 0; ok (some text)
    in if frame.tag == frontend_byte FrontendTag.query then found else ok none

-- `i16::from_be_bytes` of a slice of two bytes.
unfoldable pub count_of : Bytes → ℕ
count_of (a ∷ b ∷ _) = i16_of a b
count_of _ = 0

-- `chunks_exact(4)`, each an `i32::from_be_bytes`.
unfoldable pub oids_of : Bytes → List ℕ
oids_of (a ∷ b ∷ c ∷ d ∷ rest) = i32_of a b c d ∷ oids_of rest
oids_of _ = []

-- A count whose sign bit is set is negative. `checked_mul(4)` cannot fail on a 64-bit usize.
abbrev pub check_count : ℕ → Result ℕ
check_count count = if ltb count (2 ^ 15) then ok count else err incomplete_frame

unfoldable pub read_oids : Bytes → ℕ → ℕ → Result (List ℕ)
unfolding oids_of
read_oids payload offset count = do
  oids ← ok_or (get_range payload offset (offset + count * 4)) incomplete_frame
  ok (oids_of oids)

unfoldable pub parse_oids : Bytes → ℕ → Result (List ℕ)
unfolding count_of
parse_oids payload offset = do
  slice ← ok_or (get_range payload offset (offset + 2)) incomplete_frame
  count ← check_count (count_of slice)
  read_oids payload (offset + 2) count

unfoldable pub parse_parse_message : FrontendFrame → Result (Option ParseMessage)
parse_parse_message frame =
    let found : Result (Option ParseMessage) = do
      (statement_name, offset) ← read_cstr frame.payload 0
      (query, offset') ← read_cstr frame.payload offset
      oids ← parse_oids frame.payload offset'
      ok (
          some
            (record { statement_name = statement_name; query = query; parameter_type_oids = oids }))
    in if frame.tag == frontend_byte FrontendTag.parse then found else ok none

unfoldable pub parse_bind_statement_name : FrontendFrame → Result (Option Bytes)
parse_bind_statement_name frame =
    let found : Result (Option Bytes) = do
      (_, statement_offset) ← read_cstr frame.payload 0
      (statement_name, _) ← read_cstr frame.payload statement_offset
      ok (some statement_name)
    in if frame.tag == frontend_byte FrontendTag.bind then found else ok none

-- `payload.first()`.
abbrev pub first : Bytes → Option ℕ
first [] = none
first (b ∷ _) = some b

unfoldable pub parse_describe_target : FrontendFrame → Result (Option DescribeTarget)
parse_describe_target frame =
    let found : Result (Option DescribeTarget) = do
      target_kind ← ok_or (first frame.payload) incomplete_frame
      (target_name, _) ← read_cstr frame.payload 1
      if target_kind == statement_kind
          then ok (some (DescribeTarget.statement target_name))
          else if target_kind == portal_kind
          then ok (some (DescribeTarget.portal target_name))
          else ok none
    in if frame.tag == frontend_byte FrontendTag.describe then found else ok none

unfoldable pub parse_close_target : FrontendFrame → Result (Option CloseTarget)
parse_close_target frame =
    let found : Result (Option CloseTarget) = do
      target_kind ← ok_or (first frame.payload) incomplete_frame
      (target_name, _) ← read_cstr frame.payload 1
      if target_kind == statement_kind
          then ok (some (CloseTarget.statement target_name))
          else if target_kind == portal_kind
          then ok (some (CloseTarget.portal target_name))
          else ok none
    in if frame.tag == frontend_byte FrontendTag.close then found else ok none
