-- ===== src/Wire/Tests/Startup.antt =====
-- The same for the packets that open a connection.
use pg_kinetic.Prelude.{[], ◌∷◌, arith, Bytes, codes}
use pg_kinetic.Wire.Utf8.{is_utf8}
use pg_kinetic.Wire.Message.Cstr.{IsCstr}

user-IsCstr : IsCstr (codes "user")
unfolding is_utf8
user-IsCstr = ground arith

ann-IsCstr : IsCstr (codes "ann")
unfolding is_utf8
ann-IsCstr = ground arith

abbrev eight_bytes : Bytes
eight_bytes = 0 ∷ 0 ∷ 0 ∷ 8 ∷ 4 ∷ 210 ∷ 22 ∷ 47 ∷ []
