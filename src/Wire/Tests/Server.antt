-- ===== src/Wire/Tests/Server.antt =====
-- The same for what a server sends.
use pg_kinetic.Prelude.{ℕ, ◌+◌, ◌^◌, ◌<◌, List, [], ◌∷◌, arith, length, Bytes, codes}
use pg_kinetic.Wire.Buffer.{put_i32}
use pg_kinetic.Wire.Utf8.{is_utf8}
use pg_kinetic.Wire.Backend.{BackendFrame}
use pg_kinetic.Wire.Auth.{AuthRequest, auth_payload}
use pg_kinetic.Wire.Message.Cstr.{IsCstr}

abbrev failed_frame : BackendFrame
failed_frame = record { tag = b'Z'; payload = b'E' ∷ [] }

error_text-IsCstr : IsCstr (codes "ERROR")
unfolding is_utf8
error_text-IsCstr = ground arith

code_text-IsCstr : IsCstr (codes "42P01")
unfolding is_utf8
code_text-IsCstr = ground arith

abbrev error_fields : List (ℕ × Bytes)
error_fields = (b'S', codes "ERROR") ∷ (b'C', codes "42P01") ∷ []

abbrev parameter : Bytes
parameter = b'a' ∷ 0 ∷ b'b' ∷ 0 ∷ []

abbrev name_a : Bytes
name_a = b'a' ∷ []

abbrev value_b : Bytes
value_b = b'b' ∷ []

md5_fits : length (auth_payload (AuthRequest.md5_password 1 2 3 4)) + 4 < 2 ^ 31
unfolding auth_payload put_i32
md5_fits = omega arith
