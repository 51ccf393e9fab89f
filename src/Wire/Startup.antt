-- ===== src/Wire/Startup.antt =====
-- crates/pg-kinetic-wire/src/startup.rs and tls.rs, `encode_cancel_request` of
-- crates/pg-kinetic-proxy/src/cancel.rs and `startup_packet` of
-- crates/pg-kinetic-proxy/src/observe/health.rs.
pub mod Parameters
pub mod Packets
use pg_kinetic.Prelude.{
  ℕ, zero, suc, ◌+◌, ◌-◌, ◌/◌, ◌%◌, ◌^◌, Bool, true, false, ◌&&◌, Option, none, some, List, [], ◌∷◌,
  ◌++◌, ltb, leb, ◌==◌, if◌then◌else◌, length, take, drop, get_elem?, Bytes, codes,
}
use mathlib.Core.Option
use pg_kinetic.Wire.Buffer.{put_i32, i32_of, i32_ltb, as_i32, position}
use pg_kinetic.Wire.Utf8.{from_utf8}
use pg_kinetic.Wire.Protocol.{
  WireError, Result, ok, err, ◌>>=◌, ok_or, invalid_startup_length, incomplete_startup_packet,
  unterminated_startup_parameters, missing_startup_parameter_value, invalid_utf8, ssl_request_code,
  gssenc_request_code, cancel_request_code, v3, to_i32,
}

abbrev pub min_startup_len : ℕ
min_startup_len = 8

pub data StartupPacket : Type 0 where
  startup : ℕ → ℕ → List (Bytes × Bytes) → StartupPacket
  ssl_request gss_enc_request : StartupPacket
  cancel_request : ℕ → ℕ → StartupPacket

unfoldable pub find_null : Bytes → ℕ → Option ℕ
find_null bytes start = Option.map (λ offset. start + offset) (position (drop start bytes))

-- `bytes[start..end]` as a text.
unfoldable pub text_of : Bytes → ℕ → ℕ → Result Bytes
text_of bytes start end = ok_or (from_utf8 (take (end - start) (drop start bytes))) invalid_utf8

abbrev pub Parameters : Type 0
Parameters = List (Bytes × Bytes)

-- The body of the loop: the pair at `start`, and where the next one begins.
unfoldable pub read_parameter : Bytes → ℕ → Result ((Bytes × Bytes) × ℕ)
unfolding find_null text_of
read_parameter bytes start = do
  key_end ← ok_or (find_null bytes start) unterminated_startup_parameters
  key ← text_of bytes start key_end
  let value_start = key_end + 1
  let behind : Result ((Bytes × Bytes) × ℕ) = do
    value_end ← ok_or (find_null bytes value_start) unterminated_startup_parameters
    value ← text_of bytes value_start value_end
    ok ((key, value), value_end + 1)
  if leb (length bytes) value_start then err (missing_startup_parameter_value key) else behind

-- What a round comes to.
abbrev pub after_parameter :
    (Parameters → ℕ → Option (Result Parameters))
    → Parameters
    → Result ((Bytes × Bytes) × ℕ)
    → Option (Result Parameters)
after_parameter resume parameters (ok (pair, start)) = resume (parameters ++ pair ∷ []) start
after_parameter resume parameters (err e) = some (err e)

-- `none` means that the fuel ran out.
unfoldable pub parameters_loop : ℕ → Bytes → Parameters → ℕ → Option (Result Parameters)
parameters_loop zero bytes parameters start = none
parameters_loop (suc fuel) bytes parameters start = elim (get_elem? bytes start) [
  | none ↦ some (ok parameters)
  | some b ↦
      let round =
        after_parameter (parameters_loop fuel bytes) parameters (read_parameter bytes start) in
      if b == 0 then some (ok parameters) else round
]

unfoldable pub ends_with_nul : Bytes → Bool
ends_with_nul [] = false
ends_with_nul (b ∷ []) = b == 0
ends_with_nul (_ ∷ c ∷ bs) = ends_with_nul (c ∷ bs)

-- Each round takes two bytes at least.
unfoldable pub parse_parameters : Bytes → Option (Result Parameters)
unfolding ends_with_nul
parse_parameters bytes =
    if ends_with_nul bytes
    then parameters_loop (suc (length bytes)) bytes [] 0
    else some (err unterminated_startup_parameters)

-- The startup packet of a protocol version; the version is split into two 16-bit patterns.
abbrev pub started : ℕ → Result Parameters → Result StartupPacket
started protocol (ok parameters) =
    ok (startup (protocol / 2 ^ 16 % 2 ^ 16) (protocol % 2 ^ 16) parameters)
started protocol (err e) = err e

abbrev pub canceled : ℕ → Bytes → Result StartupPacket
canceled len (p1 ∷ p2 ∷ p3 ∷ p4 ∷ k1 ∷ k2 ∷ k3 ∷ k4 ∷ []) =
    ok (cancel_request (i32_of p1 p2 p3 p4) (i32_of k1 k2 k3 k4))
canceled len _ = err (invalid_startup_length len)

-- What follows the length and the code.
unfoldable pub parse_code : ℕ → ℕ → Bytes → Option (Result StartupPacket)
parse_code len code cursor =
    if code == ssl_request_code
    then some (ok ssl_request)
    else if code == gssenc_request_code
    then some (ok gss_enc_request)
    else if code == cancel_request_code
    then some (canceled len cursor)
    else Option.map (started code) (parse_parameters cursor)

-- A `get_i32` on fewer than four bytes panics, which is `none` here, as is a loop out of fuel.
unfoldable pub parse_body : ℕ → Bytes → Option (Result StartupPacket)
unfolding parse_code
parse_body len (c1 ∷ c2 ∷ c3 ∷ c4 ∷ cursor) = parse_code len (i32_of c1 c2 c3 c4) cursor
parse_body len _ = none

unfoldable pub parse_startup_packet : Bytes → Option (Result StartupPacket)
unfolding parse_body
parse_startup_packet (b1 ∷ b2 ∷ b3 ∷ b4 ∷ cursor) =
    let len = i32_of b1 b2 b3 b4 in
    if i32_ltb len min_startup_len
    then some (err (invalid_startup_length len))
    else if length (b1 ∷ b2 ∷ b3 ∷ b4 ∷ cursor) == len
    then parse_body len cursor
    else some (err incomplete_startup_packet)
parse_startup_packet _ = some (err incomplete_startup_packet)

abbrev pub ssl_request_len : ℕ
ssl_request_len = 8

unfoldable pub is_ssl_request : Bytes → Bool
is_ssl_request (b1 ∷ b2 ∷ b3 ∷ b4 ∷ c1 ∷ c2 ∷ c3 ∷ c4 ∷ []) =
    i32_of b1 b2 b3 b4 == ssl_request_len && i32_of c1 c2 c3 c4 == ssl_request_code
is_ssl_request _ = false

unfoldable pub ssl_request_packet : Bytes
ssl_request_packet = put_i32 ssl_request_len ++ put_i32 ssl_request_code

unfoldable pub encode_cancel_request : ℕ → ℕ → Bytes
encode_cancel_request process_id secret_key =
    put_i32 16 ++ (put_i32 cancel_request_code ++ (put_i32 process_id ++ put_i32 secret_key))

unfoldable pub startup_packet : Bytes → Bytes → Bytes
startup_packet user database =
    let body : Bytes =
      put_i32 (to_i32 v3)
      ++ (codes "user"
          ++ 0
            ∷ (user
                ++ 0
                  ∷ (codes "database"
                      ++ 0
                        ∷ (database
                            ++ 0
                              ∷ (codes "application_name"
                                  ++ 0 ∷ (codes "pg-kinetic-health" ++ 0 ∷ (0 ∷ []))))))) in
    put_i32 (as_i32 (length body + 4)) ++ body
