-- ===== src/Wire/Utf8.antt =====
-- `std::str::from_utf8` and `str::as_bytes`. A `str` is kept as its bytes, so decoding is the test
-- for well-formed UTF-8 (Unicode, table 3-7), one byte after the other.
use pg_kinetic.Prelude.{
  ℕ, ◌<◌, ◌≡◌, refl, Bool, true, false, ◌&&◌, Option, none, some, [], ◌∷◌, arith, leb, ltb,
  if◌then◌else◌, Bytes, All,
}

-- What may follow: a first byte, one, two or three trailing bytes, or the narrower second bytes
-- after 0xe0, 0xed, 0xf0 and 0xf4.
pub data Expect : Type 0 where
  lead tail1 tail2 tail3 after_e0 after_ed after_f0 after_f4 invalid : Expect

abbrev between : ℕ → ℕ → ℕ → Bool
between lo hi b = leb lo b && leb b hi

lead_byte : ℕ → Expect
lead_byte b =
    if ltb b 0x80
    then lead
    else if between 0xc2 0xdf b
    then tail1
    else if leb b 0xdf
    then invalid
    else if leb b 0xe0
    then after_e0
    else if leb b 0xec
    then tail2
    else if leb b 0xed
    then after_ed
    else if leb b 0xef
    then tail2
    else if leb b 0xf0
    then after_f0
    else if leb b 0xf3
    then tail3
    else if leb b 0xf4
    then after_f4
    else invalid

unfoldable pub next : Expect → ℕ → Expect
unfolding lead_byte
next lead b = lead_byte b
next tail1 b = if between 0x80 0xbf b then lead else invalid
next tail2 b = if between 0x80 0xbf b then tail1 else invalid
next tail3 b = if between 0x80 0xbf b then tail2 else invalid
next after_e0 b = if between 0xa0 0xbf b then tail1 else invalid
next after_ed b = if between 0x80 0x9f b then tail1 else invalid
next after_f0 b = if between 0x90 0xbf b then tail2 else invalid
next after_f4 b = if between 0x80 0x8f b then tail2 else invalid
next invalid b = invalid

unfoldable pub scan : Expect → Bytes → Expect
unfolding next
scan e [] = e
scan e (b ∷ bs) = scan (next e b) bs

abbrev pub ends_char : Expect → Bool
ends_char lead = true
ends_char _ = false

unfoldable pub is_utf8 : Bytes → Bool
unfolding scan
is_utf8 bs = ends_char (scan lead bs)

unfoldable pub from_utf8 : Bytes → Option Bytes
unfolding is_utf8
from_utf8 bs = if is_utf8 bs then some bs else none

abbrev pub IsUtf8 : Bytes → Type 0
IsUtf8 bs = is_utf8 bs ≡ true

scan_ascii : (bs : Bytes) → All (λ b. b < 0x80) bs → scan lead bs ≡ lead
unfolding scan
scan_ascii [] h = refl
scan_ascii (b ∷ bs) h = ground (arith, scan_ascii bs h.1)

-- ASCII texts are well formed.
pub ascii-IsUtf8 : (bs : Bytes) → All (λ b. b < 0x80) bs → IsUtf8 bs
unfolding is_utf8
ascii-IsUtf8 bs h = ground (arith, scan_ascii bs h)

pub from_utf8_of : (bs : Bytes) → IsUtf8 bs → from_utf8 bs ≡ some bs
unfolding from_utf8
from_utf8_of bs h = ground (arith, h)

pub from_utf8_inv : (bs v : Bytes) → from_utf8 bs ≡ some v → (v ≡ bs) × IsUtf8 bs
unfolding from_utf8
from_utf8_inv bs v h = ground arith
