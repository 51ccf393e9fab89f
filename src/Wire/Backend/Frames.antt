-- ===== src/Wire/Backend/Frames.antt =====
-- Backend frames and their bytes, for crates/pg-kinetic-wire/src/backend.rs.
use pg_kinetic.Prelude.{
  ℕ, ◌+◌, ◌-◌, ◌^◌, ◌/◌, ◌%◌, ◌↔◌, ◌<◌, ◌≡◌, ◌∙◌, some, [], ◌∷◌, ◌++◌, arith, length, Bytes,
  length-append, take-append, drop-append,
}
use pg_kinetic.Wire.Buffer.{put_i32, i32_of, as_i32, i32_of_bytes}
use pg_kinetic.Wire.Protocol.{ok, BackendTag, backend_byte, ReadyStatusByte, ready_byte}
use pg_kinetic.Wire.Backend.{
  BackendFrame, ReadyStatus, message, parse_backend_frame, ready_status, status_of_payload,
}

-- A backend message whose length fits an i32, followed by anything, is read back; what follows it
-- stays in the buffer.
pub parse_backend_frame-message :
    (tag : ℕ) (payload rest : Bytes)
    → length payload + 4 < 2 ^ 31
    → parse_backend_frame (message tag payload ++ rest)
      ≡ (ok (some (record { tag = tag; payload = payload })), rest)
unfolding parse_backend_frame put_i32
parse_backend_frame-message tag payload rest h =
    let n : ℕ = length payload + 4 in
    let e : i32_of (as_i32 n / 2 ^ 24 % 256) (as_i32 n / 2 ^ 16 % 256) (as_i32 n / 2 ^ 8 % 256)
          (as_i32 n % 256)
        ≡ n =
      i32_of_bytes (as_i32 n) (omega arith) ∙ omega arith in
    let m : n - 4 ≡ length payload = omega arith in
    rw (e, m)
      (ground
        (arith, take-append payload rest, drop-append payload rest, length-append payload rest))

abbrev pub status_byte : ReadyStatus → ℕ
status_byte ReadyStatus.idle = ready_byte ReadyStatusByte.idle
status_byte ReadyStatus.in_transaction = ready_byte ReadyStatusByte.in_transaction
status_byte ReadyStatus.failed_transaction = ready_byte ReadyStatusByte.failed_transaction

status_of_payload_iff :
    (p : Bytes) (s : ReadyStatus) → (status_of_payload p ≡ some s) ↔ (p ≡ status_byte s ∷ [])
unfolding status_of_payload ready_byte
status_of_payload_iff [] s = ground arith
status_of_payload_iff (b ∷ []) s = ground arith
status_of_payload_iff (b ∷ c ∷ bs) s = ground arith

-- The proxy takes a status from a frame exactly when the frame is ReadyForQuery with that status
-- byte alone.
pub ready_status_iff :
    (f : BackendFrame) (s : ReadyStatus)
    → (ready_status f ≡ some s)
      ↔ (f ≡ record { tag = backend_byte BackendTag.ready_for_query; payload = status_byte s ∷ [] })
unfolding ready_status
ready_status_iff f s = ground (arith, status_of_payload_iff f.payload s)
