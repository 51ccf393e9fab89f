-- ===== src/Sharding.antt =====
-- Shard keys and their order (crates/pg-kinetic-core/src/traffic/sharding.rs). The rules and the
-- strategies are in the children.
pub mod Rules
pub mod Strategy
pub mod RouteMap
pub mod Order
pub mod Ranges
pub mod Lists
pub mod Buckets
mod Tests
use Prim.Native.Nat.{compare, Ordering, lt, eq, gt, bit_xor}
use pg_kinetic.Prelude.{
  ℕ, zero, suc, ◌+◌, ◌*◌, ◌/◌, ◌%◌, ◌^◌, Bool, true, false, ◌&&◌, ◌||◌, not, Option, none, some,
  List, [], ◌∷◌, ◌++◌, if◌then◌else◌, ◌==◌, Bytes, bytes_eq, codes,
}
use pg_kinetic.Prelude.Tables.{get, put}
use pg_kinetic.Routing.{ShardId}

pub data ShardKeyType : Type 0 where
  text integer bytes : ShardKeyType

-- An integer is the bit pattern of an i64.
pub data ShardKey : Type 0 where
  text_key : Bytes → ShardKey
  integer_key : ℕ → ShardKey
  bytes_key : Bytes → ShardKey

pub data ShardValidationError : Type 0 where
  empty_shard_id empty_shard_route_map multi_shard_rejected empty_shard_list : ShardValidationError
  empty_shard_set invalid_bucket_count : ShardValidationError
  key_type_mismatch : ShardKeyType → ShardKeyType → ShardValidationError
  invalid_range_bounds overlapping_shard_rules : ShardValidationError
  duplicate_shard_id : ShardId → ShardValidationError

pub data Validated {ℓ} (A : Type ℓ) : Type ℓ where
  valid : A → Validated A
  invalid : ShardValidationError → Validated A

abbrev pub type_name : ShardKeyType → Bytes
type_name text = codes "text"
type_name integer = codes "integer"
type_name bytes = codes "bytes"

abbrev pub key_type_eq : ShardKeyType → ShardKeyType → Bool
key_type_eq text text = true
key_type_eq integer integer = true
key_type_eq bytes bytes = true
key_type_eq _ _ = false

abbrev pub key_type : ShardKey → ShardKeyType
key_type (text_key _) = text
key_type (integer_key _) = integer
key_type (bytes_key _) = bytes

-- `==` on `ShardKey`.
abbrev pub shard_key_eq : ShardKey → ShardKey → Bool
shard_key_eq (text_key a) (text_key b) = bytes_eq a b
shard_key_eq (integer_key a) (integer_key b) = a == b
shard_key_eq (bytes_key a) (bytes_key b) = bytes_eq a b
shard_key_eq _ _ = false

-- `cmp` on `str` and `[u8]`.
unfoldable pub cmp_bytes : Bytes → Bytes → Ordering
cmp_bytes [] [] = eq
cmp_bytes [] (_ ∷ _) = lt
cmp_bytes (_ ∷ _) [] = gt
cmp_bytes (a ∷ xs) (b ∷ ys) =
    let rest = cmp_bytes xs ys in elim (compare a b) [ lt ↦ lt | eq ↦ rest | gt ↦ gt ]

-- `cmp` on i64.
unfoldable pub cmp_i64 : ℕ → ℕ → Ordering
cmp_i64 a b = compare ((a + 2 ^ 63) % 2 ^ 64) ((b + 2 ^ 63) % 2 ^ 64)

unfoldable pub compare_shard_keys : ShardKey → ShardKey → Option Ordering
unfolding cmp_bytes cmp_i64
compare_shard_keys (text_key a) (text_key b) = some (cmp_bytes a b)
compare_shard_keys (integer_key a) (integer_key b) = some (cmp_i64 a b)
compare_shard_keys (bytes_key a) (bytes_key b) = some (cmp_bytes a b)
compare_shard_keys _ _ = none

-- `enumerate().find_map(…)`, from the index `n` on.
abbrev pub first_index {ℓ} : {A : Type ℓ} → (A → Bool) → ℕ → List A → Option ℕ
first_index p n [] = none
first_index p n (x ∷ xs) = let rest = first_index p (n + 1) xs in if p x then some n else rest

-- The loop over the types of the rules behind the first.
abbrev pub type_error {ℓ} :
    {A : Type ℓ} → (A → ShardKeyType) → ShardKeyType → List A → Option ShardValidationError
type_error of expected [] = none
type_error of expected (rule ∷ rules) =
    let rest = type_error of expected rules in
    if not (key_type_eq (of rule) expected)
    then some (key_type_mismatch expected (of rule))
    else rest

abbrev pub any_rule {ℓ} : {A : Type ℓ} → (A → Bool) → List A → Bool
any_rule p [] = false
any_rule p (x ∷ xs) = p x || any_rule p xs
