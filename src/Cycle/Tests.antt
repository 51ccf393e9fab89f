-- ===== src/Cycle/Tests.antt =====
-- Runs of the reading of cycles at concrete inputs.
use pg_kinetic.Prelude.{◌≤◌, length, ◌≡◌, refl, some, none, List, [], ◌∷◌, ◌++◌, Bytes, All, arith}
use pg_kinetic.Wire.Protocol.{ok, Result}
use pg_kinetic.Wire.Frame.{FrontendFrame, parse_frontend_frame, encode_frontend_frame}
use pg_kinetic.Wire.Buffer.{put_i32}
use pg_kinetic.Wire.Frame.RoundTrip.{Fits}
use pg_kinetic.Wire.Frame.Cycle.{encode_all}
use pg_kinetic.Cycle.{FrontendCycleRead, take_frontend_cycle_bytes}
use pg_kinetic.Cycle.Split.{cycle_of}
use pg_kinetic.Cycle.Reference.{take_frontend_cycle_bytes-encode_all}
use pg_kinetic.Cycle.Total.{take_frontend_cycle_bytes_total}

-- A Parse, a Sync and a simple query.
abbrev three_frames : List FrontendFrame
three_frames =
    (record { tag = 80; payload = 0 ∷ 49 ∷ 0 ∷ 0 ∷ 0 ∷ [] })
    ∷ (record { tag = 83; payload = [] })
    ∷ (record { tag = 81; payload = 49 ∷ 0 ∷ [] })
    ∷ []

abbrev partial_header : Bytes
partial_header = 81 ∷ 0 ∷ []

three_frames-Fits : All Fits three_frames
three_frames-Fits = (omega arith, (omega arith, (omega arith, tt)))

partial_header-waits : parse_frontend_frame partial_header ≡ (ok none, partial_header)
unfolding parse_frontend_frame
partial_header-waits = refl

three_frames-bounded : length (encode_all three_frames ++ partial_header) ≤ 64
unfolding encode_frontend_frame put_i32
three_frames-bounded = omega arith

take_frontend_cycle_bytes-encode_all_example :
    take_frontend_cycle_bytes (encode_all three_frames ++ partial_header) 64
    ≡ (some (ok (cycle_of three_frames).0), encode_all (cycle_of three_frames).1 ++ partial_header)
take_frontend_cycle_bytes-encode_all_example =
    take_frontend_cycle_bytes-encode_all three_frames partial_header 64 three_frames-Fits
      partial_header-waits three_frames-bounded

take_frontend_cycle_bytes_total_example :
    (c : Result FrontendCycleRead) × ((take_frontend_cycle_bytes partial_header 64).0 ≡ some c)
take_frontend_cycle_bytes_total_example = take_frontend_cycle_bytes_total partial_header 64
