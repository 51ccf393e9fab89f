-- ===== src/Sharding/Order.antt =====
-- The order of shard keys (crates/pg-kinetic-core/src/traffic/sharding.rs).
use Prim.Native.Nat.{Ordering, lt, eq, gt}
use pg_kinetic.Prelude.{
  ℕ, Bool, true, false, ◌&&◌, not, some, [], ◌∷◌, Bytes, ◌≡◌, ◌≢◌, refl, arith,
}
use pg_kinetic.Sharding.{
  ShardKey, text_key, integer_key, bytes_key, cmp_bytes, cmp_i64, compare_shard_keys,
}
use pg_kinetic.Sharding.Rules.{above, below}

-- The comparison of the ends of two that are in order.
abbrev pub join : Ordering → Ordering → Ordering
join eq y = y
join x y = x

cmp_bytes_trans :
    (a b c : Bytes)
    → cmp_bytes a b ≢ gt
    → cmp_bytes b c ≢ gt
    → cmp_bytes a c ≡ join (cmp_bytes a b) (cmp_bytes b c)
unfolding cmp_bytes
cmp_bytes_trans [] [] [] h k = refl
cmp_bytes_trans [] [] (z ∷ c) h k = refl
cmp_bytes_trans [] (y ∷ b) [] h k = absurd (k refl)
cmp_bytes_trans [] (y ∷ b) (z ∷ c) h k = refl
cmp_bytes_trans (x ∷ a) [] c h k = absurd (h refl)
cmp_bytes_trans (x ∷ a) (y ∷ b) [] h k = absurd (k refl)
cmp_bytes_trans (x ∷ a) (y ∷ b) (z ∷ c) h k = ground (arith, cmp_bytes_trans a b c)

cmp_i64_trans :
    (a b c : ℕ)
    → cmp_i64 a b ≢ gt
    → cmp_i64 b c ≢ gt
    → cmp_i64 a c ≡ join (cmp_i64 a b) (cmp_i64 b c)
unfolding cmp_i64
cmp_i64_trans a b c h k = ground arith

not-above :
    (x y z : Ordering) (iu il : Bool)
    → (x ≢ gt → y ≢ gt → z ≡ join x y)
    → below (some x) iu ≡ true
    → below (some y) (not (iu && il)) ≡ true
    → above (some z) il ≡ false
not-above gt y z iu il h hx hy = cc
not-above x gt z iu il h hx hy = cc
not-above lt lt z iu il h hx hy = ground (arith, h)
not-above lt eq z iu il h hx hy = ground (arith, h)
not-above eq lt z iu il h hx hy = ground (arith, h)
not-above eq eq z iu il h hx hy = ground (arith, h, hx, hy)

-- A key that is below `u`, which is below `l`, is not above `l`.
pub key-not-above :
    (k u l : ShardKey) (iu il : Bool)
    → below (compare_shard_keys k u) iu ≡ true
    → below (compare_shard_keys u l) (not (iu && il)) ≡ true
    → above (compare_shard_keys k l) il ≡ false
unfolding compare_shard_keys
key-not-above (text_key k) (text_key u) (text_key l) iu il h g =
    not-above (cmp_bytes k u) (cmp_bytes u l) (cmp_bytes k l) iu il (cmp_bytes_trans k u l) h g
key-not-above (integer_key k) (integer_key u) (integer_key l) iu il h g =
    not-above (cmp_i64 k u) (cmp_i64 u l) (cmp_i64 k l) iu il (cmp_i64_trans k u l) h g
key-not-above (bytes_key k) (bytes_key u) (bytes_key l) iu il h g =
    not-above (cmp_bytes k u) (cmp_bytes u l) (cmp_bytes k l) iu il (cmp_bytes_trans k u l) h g
key-not-above _ _ _ iu il h g = cc
