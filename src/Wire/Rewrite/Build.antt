-- ===== src/Wire/Rewrite/Build.antt =====
-- `build_parse_frame` of crates/pg-kinetic-wire/src/rewrite.rs against `parse_parse_message`.
use pg_kinetic.Prelude.{
  ℕ, ◌+◌, ◌-◌, ◌*◌, ◌%◌, ◌/◌, ◌^◌, ◌<◌, ◌≡◌, refl, some, List, [], ◌∷◌, ◌++◌, arith, length, Bytes,
  All, append_assoc, take_all,
}
use pg_kinetic.Wire.Buffer.{get_range, put_i16, put_i32, IsI32, i32_of_bytes}
use pg_kinetic.Wire.Message.Cstr.{IsCstr, read_cstr-append}
use pg_kinetic.Wire.Message.Parse.{parse_named, parse_oids_next}
use pg_kinetic.Wire.Message.{read_oids, parse_oids, parse_parse_message, count_of, oids_of}
use pg_kinetic.Wire.Protocol.{ok}
use pg_kinetic.Wire.Rewrite.{build_parse_frame, put_oids}

length-put_oids : (oids : List ℕ) → length (put_oids oids) ≡ length oids * 4
unfolding put_oids put_i32
length-put_oids [] = refl
length-put_oids (oid ∷ oids) = omega (arith, length-put_oids oids)

oids_of-put_oids : (oids : List ℕ) → All IsI32 oids → oids_of (put_oids oids) ≡ oids
unfolding oids_of put_oids put_i32
oids_of-put_oids [] h = refl
oids_of-put_oids (oid ∷ oids) h = rw (i32_of_bytes oid h.0, oids_of-put_oids oids h.1)

get_range_count : (a b : ℕ) (bs : Bytes) → get_range (a ∷ b ∷ bs) 0 (0 + 2) ≡ some (a ∷ b ∷ [])
get_range_count a b bs = ground arith

get_range_rest :
    (a b n : ℕ) (bs : Bytes) → n ≡ length bs → get_range (a ∷ b ∷ bs) (0 + 2) (0 + 2 + n) ≡ some bs
get_range_rest a b n bs e =
    let m : 0 + 2 + n - (0 + 2) ≡ length bs = omega arith in rw (m, take_all bs) (ground arith)

parse_oids-put_oids :
    (oids : List ℕ)
    → All IsI32 oids
    → length oids < 2 ^ 15
    → parse_oids (put_i16 (length oids % 2 ^ 16) ++ put_oids oids) 0 ≡ ok oids
unfolding parse_oids put_i16 read_oids count_of
parse_oids-put_oids oids h fits =
    let n : length oids % 2 ^ 16 / 2 ^ 8 % 256 * 256 + length oids % 2 ^ 16 % 256 ≡ length oids =
      omega arith in
    rw (get_range_count _ _ (put_oids oids), n)
      (ground (
        arith,
        get_range_rest (length oids % 2 ^ 16 / 2 ^ 8 % 256) (length oids % 2 ^ 16 % 256)
            (length oids * 4) (put_oids oids),
        length-put_oids oids,
        oids_of-put_oids oids h,
      ))

-- The Parse frame that the proxy builds of two texts and less than 2^15 types is read back as the
-- name, the query and the types given.
pub parse_parse_message-build_parse_frame :
    (name text : Bytes) (oids : List ℕ)
    → IsCstr name
    → IsCstr text
    → All IsI32 oids
    → length oids < 2 ^ 15
    → parse_parse_message (build_parse_frame name text oids)
      ≡ ok (some (record { statement_name = name; query = text; parameter_type_oids = oids }))
unfolding build_parse_frame
parse_parse_message-build_parse_frame name text oids cn ct h fits =
    let e : length text + 1 ≡ length text + 1 + 0 = omega arith in
    let oid_bytes : Bytes = put_i16 (length oids % 2 ^ 16) ++ put_oids oids in
    rw (
      append_assoc name (0 ∷ []),
      append_assoc text (0 ∷ []),
      parse_named name (text ++ 0 ∷ oid_bytes) cn,
      read_cstr-append text oid_bytes ct,
      e,
      parse_oids_next text oid_bytes 0,
      parse_oids-put_oids oids h fits,
    )
