-- ===== src/Wire/Buffer.antt =====
-- What the wire crate uses of `bytes` and of slices: big-endian integers, slices, and the search
-- for a NUL byte. An i32 or i16 is kept as its bit pattern, and compared as signed by `i32_ltb`.
use pg_kinetic.Prelude.{
  ℕ, suc, ◌+◌, ◌-◌, ◌*◌, ◌/◌, ◌%◌, ◌^◌, ◌<◌, ◌≡◌, refl, ◌≢◌, Bool, ◌&&◌, Option, none, some, [],
  ◌∷◌, ◌++◌, arith, ltb, leb, ◌==◌, if◌then◌else◌, length, take, drop, All, Bytes, ne→==, zero,
}
use mathlib.Core.Option

abbrev pub IsByte : ℕ → Type 0
IsByte b = b < 256

abbrev pub IsI32 : ℕ → Type 0
IsI32 n = n < 2 ^ 32

-- Signed comparison of two bit patterns.
abbrev pub i32_ltb : ℕ → ℕ → Bool
i32_ltb a b = ltb ((a + 2 ^ 31) % 2 ^ 32) ((b + 2 ^ 31) % 2 ^ 32)

-- `usize as i32`.
abbrev pub as_i32 : ℕ → ℕ
as_i32 n = n % 2 ^ 32

-- `BufMut::put_i32`: what is appended.
unfoldable pub put_i32 : ℕ → Bytes
put_i32 n = (n / 2 ^ 24) % 256 ∷ (n / 2 ^ 16) % 256 ∷ (n / 2 ^ 8) % 256 ∷ n % 256 ∷ []

-- `BufMut::put_i16`.
unfoldable pub put_i16 : ℕ → Bytes
put_i16 n = (n / 2 ^ 8) % 256 ∷ n % 256 ∷ []

-- `i32::from_be_bytes` and `i16::from_be_bytes`.
abbrev pub i32_of : ℕ → ℕ → ℕ → ℕ → ℕ
i32_of a b c d = ((a * 256 + b) * 256 + c) * 256 + d

abbrev pub i16_of : ℕ → ℕ → ℕ
i16_of a b = a * 256 + b

pub i32_of_bytes :
    (n : ℕ)
    → IsI32 n
    → i32_of ((n / 2 ^ 24) % 256) ((n / 2 ^ 16) % 256) ((n / 2 ^ 8) % 256) (n % 256) ≡ n
i32_of_bytes n h = omega arith

pub put_i32-i32_of :
    (a b c d : ℕ)
    → IsByte a
    → IsByte b
    → IsByte c
    → IsByte d
    → put_i32 (i32_of a b c d) ≡ a ∷ b ∷ c ∷ d ∷ []
unfolding put_i32
put_i32-i32_of a b c d ha hb hc hd = ground arith

-- `bytes.get(start..)`.
abbrev pub get_from : Bytes → ℕ → Option Bytes
get_from bytes start = if leb start (length bytes) then some (drop start bytes) else none

-- `bytes.get(start..end)`.
abbrev pub get_range : Bytes → ℕ → ℕ → Option Bytes
get_range bytes start end =
    if leb start end && leb end (length bytes)
    then some (take (end - start) (drop start bytes))
    else none

-- `bytes.iter().position(|byte| *byte == 0)`.
unfoldable pub position : Bytes → Option ℕ
position [] = none
position (b ∷ bs) = if b == 0 then some 0 else Option.map suc (position bs)

-- No byte is NUL.
abbrev pub IsNulFree : Bytes → Type 0
IsNulFree = All (λ b. b ≢ 0)

pub position-append : (xs ys : Bytes) → IsNulFree xs → position (xs ++ 0 ∷ ys) ≡ some (length xs)
unfolding position
position-append [] ys h = refl
position-append (x ∷ xs) ys h = rw (ne→== x 0 h.0, position-append xs ys h.1)

-- Where the first NUL stands.
pub position_split :
    (t : Bytes) (n : ℕ)
    → position t ≡ some n
    → (t ≡ take n t ++ 0 ∷ drop (suc n) t) × IsNulFree (take n t) × (length (take n t) ≡ n)
unfolding position
position_split [] n h = cc
position_split (b ∷ bs) zero h = ground arith
position_split (b ∷ bs) (suc n) h = ground (arith, position_split bs n)
