-- ===== src/Cycle/Startup.antt =====
-- The reading of a startup packet from a client's buffer, `take_startup_packet_bytes` of
-- crates/pg-kinetic-proxy/src/engine/io_runtime.rs. The outer `none` means a panic, or that the fuel
-- of the parser ran out.
use pg_kinetic.Prelude.{
  ℕ, Bool, true, false, Option, none, some, [], ◌∷◌, if◌then◌else◌, ltb, length, take, drop, Bytes,
  ◌≡◌, refl, arith, Bool-cases, inl, inr, ap,
}
use pg_kinetic.Wire.Buffer.{i32_of, i32_ltb}
use pg_kinetic.Wire.Protocol.{Result, ok, err, invalid_startup_length}
use pg_kinetic.Wire.Startup.{
  StartupPacket, startup, ssl_request, gss_enc_request, cancel_request, parse_startup_packet,
}
use pg_kinetic.Wire.Startup.Packets.{parse_startup_packet_total}

pub data StartupEncryptionRequest : Type 0 where
  ssl gss : StartupEncryptionRequest

pub data StartupPacketRead : Type 0 where
  packet : Bytes → StartupPacketRead
  cancel : Bytes → ℕ → ℕ → StartupPacketRead
  encryption_request : StartupEncryptionRequest → StartupPacketRead
  startup_limit_exceeded need_more_startup : StartupPacketRead

-- The match on what the parser says of the packet.
abbrev pub packet_read : Bytes → Result StartupPacket → Result StartupPacketRead
packet_read bytes (err e) = err e
packet_read bytes (ok (startup _ _ _)) = ok (packet bytes)
packet_read bytes (ok (cancel_request process_id secret_key)) =
    ok (cancel bytes process_id secret_key)
packet_read bytes (ok ssl_request) = ok (encryption_request ssl)
packet_read bytes (ok gss_enc_request) = ok (encryption_request gss)

abbrev pub after_parser :
    (Result StartupPacket → Option (Result StartupPacketRead))
    → Option (Result StartupPacket)
    → Option (Result StartupPacketRead)
after_parser f none = none
after_parser f (some r) = f r

-- A length that is too short: were it after_parser, `unreachable!` would panic.
abbrev pub refused : Result StartupPacket → Option (Result StartupPacketRead)
refused (err e) = some (err e)
refused (ok _) = none

-- A buffer that is over the limit, or too short for a length.
abbrev pub without_length : Bool → Bytes → Option (Result StartupPacketRead) × Bytes
without_length true buffer = (some (ok startup_limit_exceeded), buffer)
without_length false buffer = (some (ok need_more_startup), buffer)

-- The result, and the buffer that is left.
unfoldable pub take_startup_packet_bytes : Bytes → ℕ → Option (Result StartupPacketRead) × Bytes
unfolding parse_startup_packet
take_startup_packet_bytes (b1 ∷ b2 ∷ b3 ∷ b4 ∷ rest) max_client_buffer_bytes =
    let buffer : Bytes = b1 ∷ b2 ∷ b3 ∷ b4 ∷ rest in
    let len = i32_of b1 b2 b3 b4 in
    let bytes = take len buffer in
    if ltb max_client_buffer_bytes (length buffer)
    then (some (ok startup_limit_exceeded), buffer)
    else if i32_ltb len 8
    then (after_parser refused (parse_startup_packet buffer), buffer)
    else if ltb (length buffer) len
    then (some (ok need_more_startup), buffer)
    else (
      after_parser (λ r. some (packet_read bytes r)) (parse_startup_packet bytes),
      drop len buffer,
    )
take_startup_packet_bytes buffer max_client_buffer_bytes =
    without_length (ltb max_client_buffer_bytes (length buffer)) buffer

after_parser_total :
    (bytes whole : Bytes)
    → (c : Result StartupPacketRead) × (after_parser
          (λ r. some (packet_read bytes r))
          (parse_startup_packet whole)
        ≡ some c)
after_parser_total bytes whole =
    let (r, done) = parse_startup_packet_total whole in
    (packet_read bytes r, ap (after_parser (λ r. some (packet_read bytes r))) done)

prefixed_total :
    (b1 b2 b3 b4 : ℕ) (rest : Bytes) (max : ℕ)
    → (c : Result StartupPacketRead) × ((take_startup_packet_bytes (b1 ∷ b2 ∷ b3 ∷ b4 ∷ rest) max).0
        ≡ some c)
unfolding take_startup_packet_bytes
prefixed_total b1 b2 b3 b4 rest max =
    let buffer : Bytes = b1 ∷ b2 ∷ b3 ∷ b4 ∷ rest in
    let len : ℕ = i32_of b1 b2 b3 b4 in
    elim (Bool-cases (ltb max (length buffer))) [
      | inl e ↦ rw e (ok startup_limit_exceeded, refl)
      | inr e ↦ elim (Bool-cases (i32_ltb len 8)) [
        | inl short ↦ (err (invalid_startup_length len), ground (arith, e, short))
        | inr long ↦ elim (Bool-cases (ltb (length buffer) len)) [
          | inl wait ↦ (ok need_more_startup, ground (arith, e, long, wait))
          | inr whole ↦
              let (c, done) = after_parser_total (take len buffer) (take len buffer) in
              (c, ground (arith, e, long, whole, done))
        ]
      ]
    ]

-- A buffer without a length.
short_total :
    (over : Bool) (buffer : Bytes)
    → (c : Result StartupPacketRead) × ((without_length over buffer).0 ≡ some c)
short_total true buffer = (ok startup_limit_exceeded, refl)
short_total false buffer = (ok need_more_startup, refl)

-- Whatever the buffer holds and whatever the limit, the reading of a startup packet ends and does not
-- panic.
pub take_startup_packet_bytes_total :
    (buffer : Bytes) (max_client_buffer_bytes : ℕ)
    → (c : Result StartupPacketRead) × ((take_startup_packet_bytes buffer max_client_buffer_bytes).0
        ≡ some c)
unfolding take_startup_packet_bytes
take_startup_packet_bytes_total (b1 ∷ b2 ∷ b3 ∷ b4 ∷ rest) max = prefixed_total b1 b2 b3 b4 rest max
take_startup_packet_bytes_total [] max = short_total (ltb max 0) []
take_startup_packet_bytes_total (b1 ∷ []) max = short_total (ltb max 1) (b1 ∷ [])
take_startup_packet_bytes_total (b1 ∷ b2 ∷ []) max = short_total (ltb max 2) (b1 ∷ b2 ∷ [])
take_startup_packet_bytes_total (b1 ∷ b2 ∷ b3 ∷ []) max =
    short_total (ltb max 3) (b1 ∷ b2 ∷ b3 ∷ [])
