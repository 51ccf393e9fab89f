-- ===== src/Wire/Frame/RoundTrip.antt =====
-- Frames and their bytes, for crates/pg-kinetic-wire/src/frame.rs.
use pg_kinetic.Prelude.{
  ℕ, suc, ◌+◌, ◌-◌, ◌^◌, ◌<◌, ◌≡◌, refl, ◌∙◌, ◌≢◌, ◌⊎◌, none, some, [], ◌∷◌, ◌++◌, arith, ltb,
  if◌then◌else◌, length, take, drop, All, Bytes, length-append, take-append, drop-append,
  take-append-drop, length-take,
}
use pg_kinetic.Wire.Buffer.{put_i32, i32_of, i32_ltb, IsByte, i32_of_bytes, put_i32-i32_of}
use pg_kinetic.Wire.Protocol.{ok, err, WireError, invalid_frame_length}
use pg_kinetic.Wire.Frame.{FrontendFrame, parse_frontend_frame, encode_frontend_frame}

-- A payload that an i32 length can announce.
abbrev pub Fits : FrontendFrame → Type 0
Fits f = length f.payload + 4 < 2 ^ 31

-- The parser on a buffer with a whole header, in terms of what follows the header.
pub parse_header :
    (tag b1 b2 b3 b4 : ℕ) (body : Bytes)
    → let len = i32_of b1 b2 b3 b4 in
      let buffer = tag ∷ b1 ∷ b2 ∷ b3 ∷ b4 ∷ body in
      parse_frontend_frame buffer ≡ (
        if i32_ltb len 4
        then (err (invalid_frame_length len), buffer)
        else if ltb (length body) (len - 4)
        then (ok none, buffer)
        else (ok (some (record { tag = tag; payload = take (len - 4) body })), drop (len - 4) body))
unfolding parse_frontend_frame
parse_header tag b1 b2 b3 b4 body =
    let n : ℕ = i32_of b1 b2 b3 b4 - 4 in
    let total : 5 + n ≡ suc (suc (suc (suc (suc n)))) = omega arith in rw total (ground arith)

split_payload :
    (tag b1 b2 b3 b4 : ℕ) (payload rest : Bytes)
    → i32_of b1 b2 b3 b4 ≡ length payload + 4
    → length payload + 4 < 2 ^ 31
    → parse_frontend_frame (tag ∷ b1 ∷ b2 ∷ b3 ∷ b4 ∷ payload ++ rest)
      ≡ (ok (some (record { tag = tag; payload = payload })), rest)
split_payload tag b1 b2 b3 b4 payload rest e h =
    let n : i32_of b1 b2 b3 b4 - 4 ≡ length payload = omega arith in
    ground (
      arith,
      n,
      parse_header tag b1 b2 b3 b4 (payload ++ rest),
      take-append payload rest,
      drop-append payload rest,
      length-append payload rest,
    )

-- An encoded frame whose length fits an i32, followed by anything, is read back; what follows it
-- stays in the buffer.
pub parse-encode :
    (f : FrontendFrame) (rest : Bytes)
    → Fits f
    → parse_frontend_frame (encode_frontend_frame f ++ rest) ≡ (ok (some f), rest)
unfolding encode_frontend_frame put_i32
parse-encode f rest h =
    split_payload f.tag _ _ _ _ f.payload rest (i32_of_bytes _ (omega arith) ∙ omega arith) h

encode_read :
    (tag b1 b2 b3 b4 : ℕ) (body rest : Bytes) (f : FrontendFrame)
    → All IsByte (tag ∷ b1 ∷ b2 ∷ b3 ∷ b4 ∷ body)
    → parse_frontend_frame (tag ∷ b1 ∷ b2 ∷ b3 ∷ b4 ∷ body) ≡ (ok (some f), rest)
    → tag ∷ b1 ∷ b2 ∷ b3 ∷ b4 ∷ body ≡ encode_frontend_frame f ++ rest
unfolding encode_frontend_frame
encode_read tag b1 b2 b3 b4 body rest f bytes h = ground (
  arith,
  parse_header tag b1 b2 b3 b4 body,
  put_i32-i32_of b1 b2 b3 b4,
  take-append-drop (i32_of b1 b2 b3 b4 - 4) body,
  length-take (i32_of b1 b2 b3 b4 - 4) body,
)

-- What is read of a buffer of bytes is what the frame encodes to, so no other bytes are read as
-- that frame.
pub encode-parse :
    (buffer rest : Bytes) (f : FrontendFrame)
    → All IsByte buffer
    → parse_frontend_frame buffer ≡ (ok (some f), rest)
    → buffer ≡ encode_frontend_frame f ++ rest
unfolding parse_frontend_frame encode_frontend_frame
encode-parse (tag ∷ b1 ∷ b2 ∷ b3 ∷ b4 ∷ body) rest f bytes h =
    encode_read tag b1 b2 b3 b4 body rest f bytes h
encode-parse [] rest f bytes h = cc
encode-parse (_ ∷ []) rest f bytes h = cc
encode-parse (_ ∷ _ ∷ []) rest f bytes h = cc
encode-parse (_ ∷ _ ∷ _ ∷ []) rest f bytes h = cc
encode-parse (_ ∷ _ ∷ _ ∷ _ ∷ []) rest f bytes h = cc

kept_body :
    (tag b1 b2 b3 b4 : ℕ) (body rest : Bytes) (e : WireError)
    → let buffer = tag ∷ b1 ∷ b2 ∷ b3 ∷ b4 ∷ body in
      (parse_frontend_frame buffer ≡ (ok none, rest))
        ⊎ (parse_frontend_frame buffer ≡ (err e, rest))
      → rest ≡ buffer
kept_body tag b1 b2 b3 b4 body rest e h = ground (arith, parse_header tag b1 b2 b3 b4 body)

-- A parse that returns no frame, or an error, leaves the buffer as it was.
pub parse_keeps_buffer :
    (buffer rest : Bytes) (e : WireError)
    → (parse_frontend_frame buffer ≡ (ok none, rest))
      ⊎ (parse_frontend_frame buffer ≡ (err e, rest))
    → rest ≡ buffer
unfolding parse_frontend_frame
parse_keeps_buffer (tag ∷ b1 ∷ b2 ∷ b3 ∷ b4 ∷ body) rest e h =
    kept_body tag b1 b2 b3 b4 body rest e h
parse_keeps_buffer [] rest e h = ground arith
parse_keeps_buffer (_ ∷ []) rest e h = ground arith
parse_keeps_buffer (_ ∷ _ ∷ []) rest e h = ground arith
parse_keeps_buffer (_ ∷ _ ∷ _ ∷ []) rest e h = ground arith
parse_keeps_buffer (_ ∷ _ ∷ _ ∷ _ ∷ []) rest e h = ground arith

prefix_body :
    (tag b1 b2 b3 b4 : ℕ) (body q : Bytes) (f : FrontendFrame)
    → Fits f
    → q ≢ []
    → (tag ∷ b1 ∷ b2 ∷ b3 ∷ b4 ∷ body) ++ q ≡ encode_frontend_frame f
    → parse_frontend_frame (tag ∷ b1 ∷ b2 ∷ b3 ∷ b4 ∷ body)
      ≡ (ok none, tag ∷ b1 ∷ b2 ∷ b3 ∷ b4 ∷ body)
unfolding encode_frontend_frame put_i32
prefix_body tag b1 b2 b3 b4 body [] f fits ne e = absurd (ne refl)
prefix_body tag b1 b2 b3 b4 body (x ∷ q) f fits ne e = ground (
  arith,
  parse_header tag b1 b2 b3 b4 body,
  i32_of_bytes (length f.payload + 4),
  length-append body (x ∷ q),
)

-- A frame whose length fits an i32 and that has not come in whole is waited for, and its bytes
-- are kept.
pub parse_prefix :
    (p q : Bytes) (f : FrontendFrame)
    → Fits f
    → q ≢ []
    → p ++ q ≡ encode_frontend_frame f
    → parse_frontend_frame p ≡ (ok none, p)
unfolding parse_frontend_frame
parse_prefix (tag ∷ b1 ∷ b2 ∷ b3 ∷ b4 ∷ body) q f fits ne e =
    prefix_body tag b1 b2 b3 b4 body q f fits ne e
parse_prefix [] q f fits ne e = refl
parse_prefix (_ ∷ []) q f fits ne e = refl
parse_prefix (_ ∷ _ ∷ []) q f fits ne e = refl
parse_prefix (_ ∷ _ ∷ _ ∷ []) q f fits ne e = refl
parse_prefix (_ ∷ _ ∷ _ ∷ _ ∷ []) q f fits ne e = refl
