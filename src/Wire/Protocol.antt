-- ===== src/Wire/Protocol.antt =====
-- crates/pg-kinetic-wire/src/protocol.rs and error.rs: message tags, request codes and errors.
use pg_kinetic.Prelude.{ℕ, ◌≡◌, refl, arith, Bytes, Option, none, some, ◌⊎◌, inl, inr}

pub data WireError : Type 0 where
  invalid_startup_length : ℕ → WireError
  incomplete_startup_packet : WireError
  unterminated_startup_parameters : WireError
  missing_startup_parameter_value : Bytes → WireError
  invalid_utf8 : WireError
  invalid_frame_length : ℕ → WireError
  incomplete_frame : WireError
  invalid_backend_frame_length : ℕ → WireError

-- `Result<T, WireError>`.
pub data Result {ℓ} (A : Type ℓ) : Type ℓ where
  ok : A → Result A
  err : WireError → Result A

-- The `?` operator.
infixl 5 ◌>>=◌
abbrev pub ◌>>=◌ {ℓ κ} : {A : Type ℓ} {B : Type κ} → Result A → (A → Result B) → Result B
ok a >>= f = f a
err e >>= f = err e

pub Result-cases {ℓ} :
    {A : Type ℓ} (r : Result A) → ((a : A) × (r ≡ ok a)) ⊎ ((e : WireError) × (r ≡ err e))
Result-cases (ok a) = inl (a, refl)
Result-cases (err e) = inr (e, refl)

-- `Option::ok_or`.
abbrev pub ok_or {ℓ} : {A : Type ℓ} → Option A → WireError → Result A
ok_or (some a) e = ok a
ok_or none e = err e

pub data ProtocolVersion : Type 0 where
  v3 : ProtocolVersion

abbrev pub to_i32 : ProtocolVersion → ℕ
to_i32 v3 = 196608

pub data FrontendTag : Type 0 where
  query parse bind describe execute close flush sync terminate : FrontendTag

-- `u8::from(FrontendTag)`.
unfoldable pub frontend_byte : FrontendTag → ℕ
frontend_byte query = b'Q'
frontend_byte parse = b'P'
frontend_byte bind = b'B'
frontend_byte describe = b'D'
frontend_byte execute = b'E'
frontend_byte close = b'C'
frontend_byte flush = b'H'
frontend_byte sync = b'S'
frontend_byte terminate = b'X'

pub data BackendTag : Type 0 where
  authentication backend_key_data bind_complete close_complete command_complete : BackendTag
  copy_both_response copy_in_response data_row empty_query_response error_response : BackendTag
  no_data parameter_description parameter_status parse_complete portal_suspended : BackendTag
  ready_for_query row_description : BackendTag

-- `u8::from(BackendTag)`.
unfoldable pub backend_byte : BackendTag → ℕ
backend_byte authentication = b'R'
backend_byte backend_key_data = b'K'
backend_byte bind_complete = b'2'
backend_byte close_complete = b'3'
backend_byte command_complete = b'C'
backend_byte copy_both_response = b'W'
backend_byte copy_in_response = b'G'
backend_byte data_row = b'D'
backend_byte empty_query_response = b'I'
backend_byte error_response = b'E'
backend_byte no_data = b'n'
backend_byte parameter_description = b't'
backend_byte parameter_status = b'S'
backend_byte parse_complete = b'1'
backend_byte portal_suspended = b's'
backend_byte ready_for_query = b'Z'
backend_byte row_description = b'T'

pub data ReadyStatusByte : Type 0 where
  idle in_transaction failed_transaction : ReadyStatusByte

-- `u8::from(ReadyStatusByte)`.
unfoldable pub ready_byte : ReadyStatusByte → ℕ
ready_byte idle = b'I'
ready_byte in_transaction = b'T'
ready_byte failed_transaction = b'E'

abbrev pub ssl_request_code : ℕ
ssl_request_code = 80877103

abbrev pub cancel_request_code : ℕ
cancel_request_code = 80877102

abbrev pub gssenc_request_code : ℕ
gssenc_request_code = 80877104

-- Distinct frontend tags have distinct bytes.
pub frontend_byte-injective : (s t : FrontendTag) → frontend_byte s ≡ frontend_byte t → s ≡ t
unfolding frontend_byte
frontend_byte-injective s t h = ground arith

-- Distinct backend tags have distinct bytes.
pub backend_byte-injective : (s t : BackendTag) → backend_byte s ≡ backend_byte t → s ≡ t
unfolding backend_byte
backend_byte-injective s t h = ground arith
