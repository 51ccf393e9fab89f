-- ===== src/Sharding/Strategy.antt =====
-- The hash of a key and the shard that a strategy gives it
-- (crates/pg-kinetic-core/src/traffic/sharding.rs).
use Prim.Native.Nat.{bit_xor}
use pg_kinetic.Prelude.{
  ℕ, ◌*◌, ◌/◌, ◌%◌, ◌^◌, not, Option, none, some, List, [], ◌∷◌, if◌then◌else◌, ◌==◌, Bytes, codes,
}
use pg_kinetic.Sharding.{
  ShardKeyType, ShardKey, Validated, type_name, key_type_eq, key_type, text_key, integer_key,
  bytes_key, invalid_bucket_count, valid, invalid,
}
use pg_kinetic.Sharding.Rules.{RangeShardRule, range_lookup, ListShardRule, list_lookup}

pub record HashShardRule : Type 0 where
  pub shard_key_type : ShardKeyType
  pub bucket_count : ℕ

unfoldable pub hash_rule_new : ShardKeyType → ℕ → Validated HashShardRule
hash_rule_new key_type bucket_count =
    if bucket_count == 0
    then invalid invalid_bucket_count
    else valid (record { shard_key_type = key_type; bucket_count = bucket_count })

abbrev pub hash_seed : ℕ
hash_seed = 0xcbf29ce484222325

abbrev pub hash_namespace : Bytes
hash_namespace = codes "pg-kinetic-shard-hash-v1"

abbrev pub hash_prime : ℕ
hash_prime = 0x100000001b3

unfoldable pub fnv1a_update : ℕ → Bytes → ℕ
fnv1a_update hash [] = hash
fnv1a_update hash (byte ∷ rest) = fnv1a_update (bit_xor hash byte * hash_prime % 2 ^ 64) rest

-- The bytes of a 64-bit pattern, the low one first.
abbrev pub to_le_bytes : ℕ → Bytes
to_le_bytes n =
    n % 256
    ∷ n / 2 ^ 8 % 256
    ∷ n / 2 ^ 16 % 256
    ∷ n / 2 ^ 24 % 256
    ∷ n / 2 ^ 32 % 256
    ∷ n / 2 ^ 40 % 256
    ∷ n / 2 ^ 48 % 256
    ∷ n / 2 ^ 56 % 256
    ∷ []

abbrev pub key_bytes : ShardKey → Bytes
key_bytes (text_key value) = value
key_bytes (integer_key value) = to_le_bytes value
key_bytes (bytes_key value) = value

unfoldable pub deterministic_shard_hash : ShardKey → ℕ
unfolding fnv1a_update
deterministic_shard_hash key =
    let named = fnv1a_update hash_seed hash_namespace in
    let typed = fnv1a_update (fnv1a_update named (0 ∷ [])) (type_name (key_type key)) in
    fnv1a_update (fnv1a_update typed (0 ∷ [])) (key_bytes key)

pub data ShardMatch : Type 0 where
  hash_bucket range_rule list_rule : ℕ → ShardMatch
  no_match : ShardMatch

pub data ShardStrategyEvaluator : Type 0 where
  by_hash : HashShardRule → ShardStrategyEvaluator
  by_range : List RangeShardRule → ShardStrategyEvaluator
  by_list : List ListShardRule → ShardStrategyEvaluator

abbrev pub matched : (ℕ → ShardMatch) → Option ℕ → ShardMatch
matched f none = no_match
matched f (some i) = f i

unfoldable pub evaluate_shard_key : ShardStrategyEvaluator → ShardKey → ShardMatch
unfolding deterministic_shard_hash range_lookup list_lookup
evaluate_shard_key (by_hash rule) key =
    if not (key_type_eq rule.shard_key_type (key_type key))
    then no_match
    else hash_bucket (deterministic_shard_hash key % rule.bucket_count)
evaluate_shard_key (by_range rules) key = matched range_rule (range_lookup rules key)
evaluate_shard_key (by_list rules) key = matched list_rule (list_lookup rules key)
