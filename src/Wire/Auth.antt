-- ===== src/Wire/Auth.antt =====
-- crates/pg-kinetic-wire/src/auth.rs: the authentication requests that the proxy sends.
use pg_kinetic.Prelude.{ℕ, ◌+◌, ◌^◌, ◌<◌, ◌≡◌, List, [], ◌∷◌, ◌++◌, length, Bytes, codes, some}
use pg_kinetic.Wire.Buffer.{put_i32}
use pg_kinetic.Wire.Protocol.{BackendTag, backend_byte, Result}
use pg_kinetic.Wire.Backend.{message, parse_backend_frame}
use pg_kinetic.Wire.Backend.Frames.{parse_backend_frame-message}

-- `md5_password` holds the four bytes of the salt.
pub data AuthRequest : Type 0 where
  ok cleartext_password : AuthRequest
  md5_password : ℕ → ℕ → ℕ → ℕ → AuthRequest
  sasl : List Bytes → AuthRequest
  sasl_continue sasl_final : Bytes → AuthRequest

-- The loop over the mechanisms.
abbrev put_mechanisms : List Bytes → Bytes
put_mechanisms [] = []
put_mechanisms (mechanism ∷ mechanisms) = mechanism ++ 0 ∷ put_mechanisms mechanisms

unfoldable pub auth_payload : AuthRequest → Bytes
auth_payload ok = put_i32 0
auth_payload cleartext_password = put_i32 3
auth_payload (md5_password a b c d) = put_i32 5 ++ (a ∷ b ∷ c ∷ d ∷ [])
auth_payload (sasl mechanisms) = put_i32 10 ++ (put_mechanisms mechanisms ++ 0 ∷ [])
auth_payload (sasl_continue bytes) = put_i32 11 ++ bytes
auth_payload (sasl_final bytes) = put_i32 12 ++ bytes

unfoldable pub build_auth_message : AuthRequest → Bytes
unfolding auth_payload
build_auth_message request = message (backend_byte BackendTag.authentication) (auth_payload request)

unfoldable pub authentication_sasl_scram_sha_256 : Bytes
unfolding build_auth_message
authentication_sasl_scram_sha_256 = build_auth_message (sasl (codes "SCRAM-SHA-256" ∷ []))

-- A request that fits a frame reaches the reader of backend frames as an Authentication frame with
-- its code and data.
pub build_auth_message_read :
    (request : AuthRequest) (rest : Bytes)
    → length (auth_payload request) + 4 < 2 ^ 31
    → parse_backend_frame (build_auth_message request ++ rest) ≡ (
      Result.ok (
          some (record {
            tag = backend_byte BackendTag.authentication;
            payload = auth_payload request;
          })),
      rest,
    )
unfolding build_auth_message
build_auth_message_read request rest h =
    parse_backend_frame-message (backend_byte BackendTag.authentication) (auth_payload request) rest
      h
