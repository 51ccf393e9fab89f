-- ===== src/Wire/Message/Cstr.antt =====
-- Reading NUL-terminated texts (`read_cstr` of crates/pg-kinetic-wire/src/message.rs).
use pg_kinetic.Prelude.{
  ℕ, suc, ◌+◌, ◌-◌, ◌≡◌, some, [], ◌∷◌, ◌++◌, arith, length, take, drop, Bytes, append_assoc,
  length-append, drop-append, take-append, drop_add, Option-cases, inl, inr,
}
use pg_kinetic.Wire.Buffer.{
  get_from, get_range, position, position-append, position_split, IsNulFree,
}
use pg_kinetic.Wire.Utf8.{IsUtf8, from_utf8_of, from_utf8_inv}
use pg_kinetic.Wire.Message.{read_cstr}
use pg_kinetic.Wire.Protocol.{Result, ok, err}

-- A text that `read_cstr` can return, in its encoded form.
abbrev pub IsCstr : Bytes → Type 0
IsCstr v = IsNulFree v × IsUtf8 v

pub get_from_add : (pre t : Bytes) (n : ℕ) → get_from (pre ++ t) (length pre + n) ≡ get_from t n
get_from_add pre t n = ground (arith, length-append pre t, drop_add pre t n)

pub get_range_add :
    (pre t : Bytes) (a b : ℕ)
    → get_range (pre ++ t) (length pre + a) (length pre + b) ≡ get_range t a b
get_range_add pre t a b =
    let e : length pre + b - (length pre + a) ≡ b - a = omega arith in
    rw (e, drop_add pre t a) (ground (arith, length-append pre t))

abbrev pub shift : ℕ → Result (Bytes × ℕ) → Result (Bytes × ℕ)
shift k (ok (v, o)) = ok (v, k + o)
shift k (err e) = err e

-- What stands before the start makes no difference but to the offset.
pub read_cstr_add :
    (pre t : Bytes) (n : ℕ)
    → read_cstr (pre ++ t) (length pre + n) ≡ shift (length pre) (read_cstr t n)
unfolding read_cstr
read_cstr_add pre t n = rw (get_from_add pre t n) (ground arith)

pub read_cstr-append :
    (v post : Bytes) → IsCstr v → read_cstr (v ++ 0 ∷ post) 0 ≡ ok (v, length v + 1)
unfolding read_cstr
read_cstr-append v post c =
    ground (arith, position-append v post c.0, take-append v (0 ∷ post), from_utf8_of v c.1)

-- What a successful read says of the bytes.
pub read_cstr_split :
    (t : Bytes) {v : Bytes} {o : ℕ}
    → read_cstr t 0 ≡ ok (v, o)
    → (t ≡ v ++ 0 ∷ drop o t) × IsCstr v × (o ≡ length v + 1)
unfolding read_cstr
read_cstr_split t {v} {o} h = elim (Option-cases (position t)) [
  | inl e ↦ ground arith
  | inr (n, e) ↦ found n e
]
  where
    found : (n : ℕ) → position t ≡ some n → (t ≡ v ++ 0 ∷ drop o t) × IsCstr v × (o ≡ length v + 1)
    found n e =
        let value : (v ≡ take n t) × IsUtf8 (take n t) × (o ≡ suc n) =
          ground (arith, from_utf8_inv (take n t) v) in
        ground (arith, position_split t n e, value)

snoc-append : (v post : Bytes) → (v ++ 0 ∷ []) ++ post ≡ v ++ 0 ∷ post
snoc-append v post = append_assoc v (0 ∷ []) post

length-snoc : (v : Bytes) → length (v ++ 0 ∷ []) ≡ length v + 1
length-snoc v = omega (arith, length-append v (0 ∷ []))

-- Behind a text, a read goes on as if the bytes began there.
pub read_cstr_next :
    (v post : Bytes) (n : ℕ)
    → read_cstr (v ++ 0 ∷ post) (length v + 1 + n) ≡ shift (length v + 1) (read_cstr post n)
read_cstr_next v post n =
    rw (← snoc-append v post, ← length-snoc v) (read_cstr_add (v ++ 0 ∷ []) post n)

pub get_range_next :
    (v post : Bytes) (a b : ℕ)
    → get_range (v ++ 0 ∷ post) (length v + 1 + a) (length v + 1 + b) ≡ get_range post a b
get_range_next v post a b =
    rw (← snoc-append v post, ← length-snoc v) (get_range_add (v ++ 0 ∷ []) post a b)

pub drop_next : (v post : Bytes) → drop (length v + 1) (v ++ 0 ∷ post) ≡ post
drop_next v post = rw (← snoc-append v post, ← length-snoc v) (drop-append (v ++ 0 ∷ []) post)

pub take_next : (v post : Bytes) → take (length v + 1) (v ++ 0 ∷ post) ≡ v ++ 0 ∷ []
take_next v post = rw (← snoc-append v post, ← length-snoc v) (take-append (v ++ 0 ∷ []) post)

pub drop_next_add : (v post : Bytes) (n : ℕ) → drop (length v + 1 + n) (v ++ 0 ∷ post) ≡ drop n post
drop_next_add v post n = rw (← snoc-append v post, ← length-snoc v) (drop_add (v ++ 0 ∷ []) post n)
