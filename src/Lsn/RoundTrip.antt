-- ===== src/Lsn/RoundTrip.antt =====
-- Log positions printed and parsed (crates/pg-kinetic-core/src/cluster/lsn.rs).
use pg_kinetic.Prelude.{
  ℕ, zero, suc, ◌+◌, ◌*◌, ◌/◌, ◌%◌, ◌^◌, ◌<◌, ◌≤◌, true, false, some, [], ◌∷◌, ◌++◌, ltb, ◌==◌,
  length, length-append, All, All-append, Bytes, ◌≡◌, ◌≢◌, refl, ◌∙◌, arith, ◌⊎◌, inl, inr,
  Bool-cases,
}
use pg_kinetic.Lsn.{
  LsnParseError, Parsed, ok, err, PgLsn, from_parts, segment, offset, hex_digit, hex, display,
  digit_of, checked_next, hex_loop, parse_hex_u32, split_once, is_empty, invalid_segment,
  segment_overflow, invalid_offset, offset_overflow, parse_parts, parse_split, from_str,
}

Parsed-cases :
    {A : Type 0} (p : Parsed A) → ((a : A) × (p ≡ ok a)) ⊎ ((e : LsnParseError) × (p ≡ err e))
Parsed-cases (ok a) = inl (a, refl)
Parsed-cases (err e) = inr (e, refl)

-- Where the front reads, the loop goes on behind it.
hex_loop-append :
    (invalid overflow : LsnParseError) (digits value w : ℕ) (xs ys : Bytes)
    → hex_loop invalid overflow digits value xs ≡ ok w
    → hex_loop invalid overflow digits value (xs ++ ys)
      ≡ hex_loop invalid overflow (digits + length xs) w ys
unfolding hex_loop
hex_loop-append invalid overflow digits value w [] ys h = ground (arith, h)
hex_loop-append invalid overflow digits value w (x ∷ xs) ys h = elim (Bool-cases (digits == 8)) [
  | inl n ↦ absurd (ground (arith, n, h))
  | inr n ↦ elim (Parsed-cases (digit_of x invalid)) [
    | inr (e, e1) ↦ absurd (ground (arith, n, e1, h))
    | inl (d, e1) ↦ elim (Parsed-cases (checked_next value d overflow)) [
      | inr (e, e2) ↦ absurd (ground (arith, n, e1, e2, h))
      | inl (v, e2) ↦
          let h' : hex_loop invalid overflow (digits + 1) v xs ≡ ok w =
            ground (arith, n, e1, e2, h) in
          let rest = hex_loop-append invalid overflow (digits + 1) v w xs ys h' in
          let count : digits + 1 + length xs ≡ digits + (length xs + 1) = omega arith in
          ground (arith, n, e1, e2, rest, count)
    ]
  ]
]

length-hex : (fuel n : ℕ) → length (hex fuel n) ≤ fuel
unfolding hex
length-hex zero n = omega arith
length-hex (suc fuel) n =
    ground
      (arith, length-append (hex fuel (n / 16)) (hex_digit (n % 16) ∷ []), length-hex fuel (n / 16))

hex_digit_read : (d : ℕ) (invalid : LsnParseError) → d < 16 → digit_of (hex_digit d) invalid ≡ ok d
unfolding digit_of
hex_digit_read d invalid h = ground arith

hex_last :
    (invalid overflow : LsnParseError) (digits value d n : ℕ)
    → digits < 8
    → d < 16
    → value * 16 + d ≡ n
    → n < 2 ^ 32
    → hex_loop invalid overflow digits value (hex_digit d ∷ []) ≡ ok n
unfolding hex_loop checked_next
hex_last invalid overflow digits value d n hd h16 e h =
    ground (arith, hex_digit_read d invalid h16, e)

read_hex :
    (invalid overflow : LsnParseError) (fuel n : ℕ)
    → fuel < 8
    → n < 16 ^ suc fuel
    → n < 2 ^ 32
    → hex_loop invalid overflow 0 0 (hex (suc fuel) n) ≡ ok n
unfolding hex
read_hex invalid overflow zero n le below h =
    let small : ltb n 16 ≡ true = ground (arith, below) in
    rw small
      (hex_last invalid overflow 0 0 n n (omega arith) (omega (arith, below)) (omega arith) h)
read_hex invalid overflow (suc fuel) n le below h = elim (Bool-cases (ltb n 16)) [
  | inl small ↦
      rw small
        (hex_last invalid overflow 0 0 n n (omega arith) (ground (arith, small)) (omega arith) h)
  | inr large ↦
      let power : 16 ^ suc (suc fuel) ≡ 16 ^ suc fuel * 16 = ground arith in
      let front =
        read_hex invalid overflow fuel (n / 16) (omega (arith, le)) (omega (arith, below, power))
          (omega (arith, h)) in
      rw large (
        hex_loop-append invalid overflow 0 0 (n / 16) (hex (suc fuel) (n / 16))
          (hex_digit (n % 16) ∷ []) front
        ∙ hex_last invalid overflow (0 + length (hex (suc fuel) (n / 16))) (n / 16) (n % 16) n
            (omega (arith, le, length-hex (suc fuel) (n / 16))) (omega arith) (omega arith) h)
]

-- No digit is a slash.
hex_no_slash : (fuel n : ℕ) → All (λ b. b ≢ b'/') (hex fuel n)
unfolding hex
hex_no_slash zero n = tt
hex_no_slash (suc fuel) n = elim (Bool-cases (ltb n 16)) [
  | inl small ↦ rw small (ground arith, tt)
  | inr large ↦ rw large (
      All-append (λ b. b ≢ b'/') (hex fuel (n / 16)) (hex_digit (n % 16) ∷ [])
        (hex_no_slash fuel (n / 16)) (ground arith, tt))
]

split_once-append :
    (xs ys : Bytes) → All (λ b. b ≢ b'/') xs → split_once (xs ++ b'/' ∷ ys) ≡ some (xs, ys)
unfolding split_once
split_once-append [] ys h = ground arith
split_once-append (x ∷ xs) ys h = ground (arith, h, split_once-append xs ys h.1)

hex_nonempty : (fuel n : ℕ) → is_empty (hex (suc fuel) n) ≡ false
unfolding hex
hex_nonempty fuel n = ground (arith, shown (hex fuel (n / 16)))
  where
    shown : (front : Bytes) → is_empty (front ++ hex_digit (n % 16) ∷ []) ≡ false
    shown [] = refl
    shown (b ∷ front) = refl

-- The printed form of a position below 2^64 is parsed as that position.
pub from_str-display : (lsn : PgLsn) → lsn < 2 ^ 64 → from_str (display lsn) ≡ ok lsn
unfolding from_str display parse_split parse_parts parse_hex_u32 segment offset from_parts
from_str-display lsn h = ground (
  arith,
  split_once-append (hex 8 (segment lsn)) (hex 8 (offset lsn)) (hex_no_slash 8 (segment lsn)),
  hex_nonempty 7 (segment lsn),
  hex_nonempty 7 (offset lsn),
  read_hex invalid_segment segment_overflow 7 (segment lsn) (omega arith) (omega arith)
      (omega arith),
  read_hex invalid_offset offset_overflow 7 (offset lsn) (omega arith) (omega arith) (omega arith),
)
