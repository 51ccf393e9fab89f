-- ===== src/Lsn.antt =====
-- crates/pg-kinetic-core/src/cluster/lsn.rs: positions in the log of a server, as texts and as a
-- measure of how fresh a replica is. A PgLsn is a number below 2^64.
pub mod RoundTrip
mod Tests
use pg_kinetic.Prelude.{
  ℕ, zero, suc, ◌+◌, ◌-◌, ◌*◌, ◌/◌, ◌%◌, ◌^◌, Bool, true, false, ◌&&◌, ◌||◌, Option, none, some,
  List, [], ◌∷◌, ◌++◌, if◌then◌else◌, ltb, leb, ◌==◌, Bytes,
}

pub data LsnParseError : Type 0 where
  missing_separator empty_part invalid_segment invalid_offset : LsnParseError
  segment_overflow offset_overflow : LsnParseError

-- A result whose error is an `LsnParseError`.
pub data Parsed (A : Type 0) : Type 0 where
  ok : A → Parsed A
  err : LsnParseError → Parsed A

infixl 10 ◌>>=◌
abbrev pub ◌>>=◌ : {A B : Type 0} → Parsed A → (A → Parsed B) → Parsed B
ok a >>= f = f a
err e >>= f = err e

abbrev pub PgLsn : Type 0
PgLsn = ℕ

-- The offset is below 2^32, so that the `|` is a sum.
unfoldable pub from_parts : ℕ → ℕ → PgLsn
from_parts segment offset = segment * 2 ^ 32 + offset

unfoldable pub segment : PgLsn → ℕ
segment lsn = lsn / 2 ^ 32 % 2 ^ 32

unfoldable pub offset : PgLsn → ℕ
offset lsn = lsn % 2 ^ 32

abbrev pub hex_digit : ℕ → ℕ
hex_digit d = if ltb d 10 then 48 + d else 55 + d

-- `{:X}` of a u32, which has 8 digits at most; the first argument bounds the digits.
unfoldable pub hex : ℕ → ℕ → Bytes
hex zero n = []
hex (suc fuel) n =
    let front = hex fuel (n / 16) in
    if ltb n 16 then hex_digit n ∷ [] else front ++ hex_digit (n % 16) ∷ []

-- `Display`.
unfoldable pub display : PgLsn → Bytes
unfolding hex segment offset
display lsn = hex 8 (segment lsn) ++ b'/' ∷ hex 8 (offset lsn)

abbrev pub in_range : ℕ → ℕ → ℕ → Bool
in_range low high b = leb low b && leb b high

unfoldable pub digit_of : ℕ → LsnParseError → Parsed ℕ
digit_of b invalid =
    if in_range 48 57 b
    then ok (b - 48)
    else if in_range 97 102 b
    then ok (b - 97 + 10)
    else if in_range 65 70 b
    then ok (b - 65 + 10)
    else err invalid

-- `checked_mul(16)` and `checked_add(digit)`.
unfoldable pub checked_next : ℕ → ℕ → LsnParseError → Parsed ℕ
checked_next value digit overflow =
    if ltb (value * 16 + digit) (2 ^ 32) then ok (value * 16 + digit) else err overflow

-- The loop of `parse_hex_u32`, after `digits` bytes that make `value`.
unfoldable pub hex_loop : LsnParseError → LsnParseError → ℕ → ℕ → Bytes → Parsed ℕ
unfolding digit_of checked_next
hex_loop invalid overflow digits value [] = ok value
hex_loop invalid overflow digits value (b ∷ bs) =
    let next : Parsed ℕ = digit_of b invalid >>= λ digit.
    checked_next value digit overflow >>= λ value'.
    hex_loop invalid overflow (digits + 1) value' bs in
    if digits == 8 then err overflow else next

unfoldable pub parse_hex_u32 : Bytes → LsnParseError → LsnParseError → Parsed ℕ
unfolding hex_loop
parse_hex_u32 input invalid overflow = hex_loop invalid overflow 0 0 input

abbrev pub in_front : ℕ → Option (Bytes × Bytes) → Option (Bytes × Bytes)
in_front b none = none
in_front b (some (left, right)) = some (b ∷ left, right)

-- `split_once('/')`.
unfoldable pub split_once : Bytes → Option (Bytes × Bytes)
split_once [] = none
split_once (b ∷ bs) =
    let rest = split_once bs in if b == b'/' then some ([], bs) else in_front b rest

abbrev pub is_empty : Bytes → Bool
is_empty [] = true
is_empty (_ ∷ _) = false

abbrev pub parse_parts : Bytes → Bytes → Parsed PgLsn
unfolding parse_hex_u32 from_parts
parse_parts left right = parse_hex_u32 left invalid_segment segment_overflow >>= λ high.
    parse_hex_u32 right invalid_offset offset_overflow >>= λ low. ok (from_parts high low)

abbrev pub parse_split : Option (Bytes × Bytes) → Parsed PgLsn
unfolding parse_parts
parse_split none = err missing_separator
parse_split (some (left, right)) =
    if is_empty left || is_empty right then err empty_part else parse_parts left right

-- `FromStr`.
unfoldable pub from_str : Bytes → Parsed PgLsn
unfolding split_once parse_split
from_str input = parse_split (split_once input)

pub record FreshnessRequirement : Type 0 where
  pub session_write_lsn : Option PgLsn

pub data FreshnessStatus : Type 0 where
  satisfied waiting stale unknown unavailable : FreshnessStatus

pub data ReplicaReplayState : Type 0 where
  replay_lsn : PgLsn → ReplicaReplayState
  stale unknown unavailable : ReplicaReplayState

unfoldable pub is_satisfied_by : FreshnessRequirement → PgLsn → Bool
is_satisfied_by r replica_replay_lsn = elim r.session_write_lsn [
  | none ↦ true
  | some required ↦ leb required replica_replay_lsn
]

unfoldable pub status : FreshnessRequirement → ReplicaReplayState → FreshnessStatus
unfolding is_satisfied_by
status r (ReplicaReplayState.replay_lsn lsn) =
    if is_satisfied_by r lsn then FreshnessStatus.satisfied else FreshnessStatus.waiting
status r ReplicaReplayState.stale = FreshnessStatus.stale
status r ReplicaReplayState.unknown = FreshnessStatus.unknown
status r ReplicaReplayState.unavailable = FreshnessStatus.unavailable
