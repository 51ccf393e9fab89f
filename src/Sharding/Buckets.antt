-- ===== src/Sharding/Buckets.antt =====
-- The bucket of a key (crates/pg-kinetic-core/src/traffic/sharding.rs).
use native.Mathlib.Nat.{mod-lt}
use pg_kinetic.Prelude.{ℕ, ◌%◌, ◌<◌, true, ◌==◌, ◌≡◌, sym, arith, Bool-cases, inl, inr}
use pg_kinetic.Sharding.{ShardKeyType, key_type, key_type_eq, ShardKey, valid}
use pg_kinetic.Sharding.Strategy.{
  HashShardRule, hash_rule_new, hash_bucket, by_hash, evaluate_shard_key, deterministic_shard_hash,
}

made_of :
    (t : ShardKeyType) (n : ℕ) (rule : HashShardRule)
    → hash_rule_new t n ≡ valid rule
    → (rule ≡ record { shard_key_type = t; bucket_count = n }) × (0 < n)
unfolding hash_rule_new
made_of t n rule h = elim (Bool-cases (n == 0)) [
  | inl e ↦ absurd (ground (arith, e, h))
  | inr e ↦ (sym (ground (arith, e, h)), ground (arith, e))
]

-- A key of the type of a hash rule that was accepted goes to one of its buckets.
pub evaluate-by_hash :
    (t : ShardKeyType) (bucket_count : ℕ) (rule : HashShardRule) (key : ShardKey)
    → hash_rule_new t bucket_count ≡ valid rule
    → key_type_eq t (key_type key) ≡ true
    → (bucket : ℕ) × ((evaluate_shard_key (by_hash rule) key ≡ hash_bucket bucket)
        × (bucket < bucket_count))
unfolding evaluate_shard_key
evaluate-by_hash t n rule key made same =
    let (is, some_bucket) = made_of t n rule made in
    (
      deterministic_shard_hash key % n,
      (ground (arith, is, same), mod-lt (deterministic_shard_hash key) some_bucket),
    )
