-- ===== src/Wire/Startup/Packets.antt =====
-- Whole startup packets (crates/pg-kinetic-wire/src/startup.rs and tls.rs) and those that the
-- proxy sends itself.
use pg_kinetic.Prelude.{
  ℕ, ◌+◌, ◌-◌, ◌/◌, ◌%◌, ◌^◌, ◌≤◌, ◌<◌, ◌≡◌, ◌↔◌, inl, inr, refl, ◌∙◌, Option-cases, some, [], ◌∷◌,
  ◌++◌, arith, length, Bytes, All, length-append, codes, true,
}
use pg_kinetic.Wire.Buffer.{IsI32, put_i32, i32_of, as_i32, i32_of_bytes}
use pg_kinetic.Wire.Utf8.{is_utf8}
use pg_kinetic.Wire.Protocol.{Result, ok, err, incomplete_startup_packet}
use pg_kinetic.Wire.Message.Cstr.{IsCstr}
use pg_kinetic.Wire.Startup.{
  Parameters, StartupPacket, startup, ssl_request, cancel_request, parse_parameters, parse_code,
  parse_body, parse_startup_packet, is_ssl_request, encode_cancel_request, startup_packet,
}
use pg_kinetic.Wire.Startup.Parameters.{
  IsParameter, encode_parameters, parse_parameters-encode, parse_parameters_total,
}

parse_code_total :
    (len code : ℕ) (cursor : Bytes)
    → (r : Result StartupPacket) × (parse_code len code cursor ≡ some r)
unfolding parse_code
parse_code_total len code cursor = elim (Option-cases (parse_code len code cursor)) [
  | inr found ↦ found
  | inl e ↦ absurd (ground (arith, parse_parameters_total cursor))
]

parse_body_total :
    (len : ℕ) (cursor : Bytes)
    → 4 ≤ length cursor
    → (r : Result StartupPacket) × (parse_body len cursor ≡ some r)
unfolding parse_body
parse_body_total len (c1 ∷ c2 ∷ c3 ∷ c4 ∷ cursor) h =
    parse_code_total len (i32_of c1 c2 c3 c4) cursor
parse_body_total len [] h = absurd (omega arith)
parse_body_total len (_ ∷ []) h = absurd (omega arith)
parse_body_total len (_ ∷ _ ∷ []) h = absurd (omega arith)
parse_body_total len (_ ∷ _ ∷ _ ∷ []) h = absurd (omega arith)

parse_prefixed_total :
    (b1 b2 b3 b4 : ℕ) (cursor : Bytes)
    → (r : Result StartupPacket) × (parse_startup_packet (b1 ∷ b2 ∷ b3 ∷ b4 ∷ cursor) ≡ some r)
unfolding parse_startup_packet
parse_prefixed_total b1 b2 b3 b4 cursor =
    elim (Option-cases (parse_startup_packet (b1 ∷ b2 ∷ b3 ∷ b4 ∷ cursor))) [
      | inr found ↦ found
      | inl e ↦ absurd (ground (arith, parse_body_total (i32_of b1 b2 b3 b4) cursor))
    ]

-- No packet makes the parser panic or loop.
pub parse_startup_packet_total :
    (packet : Bytes) → (r : Result StartupPacket) × (parse_startup_packet packet ≡ some r)
unfolding parse_startup_packet
parse_startup_packet_total (b1 ∷ b2 ∷ b3 ∷ b4 ∷ cursor) = parse_prefixed_total b1 b2 b3 b4 cursor
parse_startup_packet_total [] = (err incomplete_startup_packet, refl)
parse_startup_packet_total (_ ∷ []) = (err incomplete_startup_packet, refl)
parse_startup_packet_total (_ ∷ _ ∷ []) = (err incomplete_startup_packet, refl)
parse_startup_packet_total (_ ∷ _ ∷ _ ∷ []) = (err incomplete_startup_packet, refl)

ssl_of_eight :
    (b1 b2 b3 b4 c1 c2 c3 c4 : ℕ)
    → let packet = b1 ∷ b2 ∷ b3 ∷ b4 ∷ c1 ∷ c2 ∷ c3 ∷ c4 ∷ [] in
      (is_ssl_request packet ≡ true) ↔ (parse_startup_packet packet ≡ some (ok ssl_request))
unfolding is_ssl_request parse_startup_packet parse_parameters
ssl_of_eight b1 b2 b3 b4 c1 c2 c3 c4 = ground arith

-- A packet of eight bytes is taken for an SSL request by both readers or by neither.
pub is_ssl_request_iff :
    (packet : Bytes)
    → length packet ≡ 8
    → (is_ssl_request packet ≡ true) ↔ (parse_startup_packet packet ≡ some (ok ssl_request))
is_ssl_request_iff (b1 ∷ b2 ∷ b3 ∷ b4 ∷ c1 ∷ c2 ∷ c3 ∷ c4 ∷ []) h =
    ssl_of_eight b1 b2 b3 b4 c1 c2 c3 c4
is_ssl_request_iff _ h = absurd (omega arith)

-- A cancel request is read back with the process and the key, both i32, that it was made from.
pub parse-encode_cancel_request :
    (process_id secret_key : ℕ)
    → IsI32 process_id
    → IsI32 secret_key
    → parse_startup_packet (encode_cancel_request process_id secret_key)
      ≡ some (ok (cancel_request process_id secret_key))
unfolding parse_startup_packet encode_cancel_request put_i32
parse-encode_cancel_request process_id secret_key hp hk =
    rw (i32_of_bytes process_id hp, i32_of_bytes secret_key hk) refl

parse_prefixed :
    (body : Bytes)
    → 4 ≤ length body
    → length body + 4 < 2 ^ 31
    → parse_startup_packet (put_i32 (as_i32 (length body + 4)) ++ body)
      ≡ parse_body (length body + 4) body
unfolding parse_startup_packet put_i32
parse_prefixed body h fits =
    let n : ℕ = length body + 4 in
    let e : i32_of (as_i32 n / 2 ^ 24 % 256) (as_i32 n / 2 ^ 16 % 256) (as_i32 n / 2 ^ 8 % 256)
          (as_i32 n % 256)
        ≡ n =
      i32_of_bytes (as_i32 n) (omega arith) ∙ omega arith in
    rw e (ground arith)

length-version : (t : Bytes) → length (put_i32 196608 ++ t) ≡ length t + 4
unfolding put_i32
length-version t = omega arith

four_le-version : (t : Bytes) → 4 ≤ length (put_i32 196608 ++ t)
four_le-version t = omega (arith, length-version t)

parse_body-parameters :
    (len : ℕ) (ps : Parameters)
    → All IsParameter ps
    → parse_body len (put_i32 196608 ++ encode_parameters ps) ≡ some (ok (startup 3 0 ps))
unfolding parse_body put_i32
parse_body-parameters len ps h = rw (parse_parameters-encode ps h)

abbrev pub probe_parameters : Bytes → Bytes → Parameters
probe_parameters user database =
    (codes "user", user)
    ∷ (codes "database", database)
    ∷ (codes "application_name", codes "pg-kinetic-health")
    ∷ []

probe_texts :
    (user database : Bytes)
    → IsCstr user
    → IsCstr database
    → All IsParameter (probe_parameters user database)
unfolding is_utf8
probe_texts user database cu cd = ground (arith, cu, cd)

-- The health probe's startup packet, of a user and a database that leave room for the length, is
-- read as version 3.0 with its three parameters.
pub startup_packet_read :
    (user database : Bytes)
    → IsCstr user
    → IsCstr database
    → length user + length database < 2 ^ 31 - 100
    → parse_startup_packet (startup_packet user database)
      ≡ some (ok (startup 3 0 (probe_parameters user database)))
unfolding startup_packet
startup_packet_read user database cu cd fits =
    let ps : Parameters = probe_parameters user database in
    let body : Bytes = put_i32 196608 ++ encode_parameters ps in
    let size : length (encode_parameters ps) ≡ length user + length database + 52 = omega (
      arith,
      length-append user (
          0
          ∷ encode_parameters (
              (codes "database", database)
              ∷ (codes "application_name", codes "pg-kinetic-health")
              ∷ [])),
      length-append database
          (0 ∷ encode_parameters ((codes "application_name", codes "pg-kinetic-health") ∷ [])),
    ) in
    parse_prefixed body (four_le-version (encode_parameters ps))
      (omega (arith, length-version (encode_parameters ps)))
    ∙ parse_body-parameters (length body + 4) ps (probe_texts user database cu cd)
