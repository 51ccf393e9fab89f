-- ===== src/Breaker/Tests.antt =====
-- The breaker at concrete inputs.
use pg_kinetic.Prelude.{ℕ, ◌≤◌, true, List, [], ◌∷◌, length, leb, if◌then◌else◌, ◌≡◌, refl, arith}
use pg_kinetic.Breaker.{
  BreakerConfig, BreakerData, closed, opened, half_open, breaker_new, record_failure, allow_request,
  cool_down,
}
use pg_kinetic.Breaker.Probe.{requests, requests-opened}
use pg_kinetic.Breaker.Failures.{record_failures, record_failures-breaker_new}
use pg_kinetic.Breaker.Calls.{Call, allow, fail, call, run, open_ends}

abbrev two_in_five : BreakerConfig
two_in_five = record { failure_threshold = 2; cooldown = 5 }

abbrev three_times : List ℕ
three_times = 1 ∷ 2 ∷ 3 ∷ []

record_failures-breaker_new_example :
    (record_failures (breaker_new two_in_five) three_times).state
    ≡ (if leb 2 (length three_times) then opened else closed)
record_failures-breaker_new_example =
    record_failures-breaker_new two_in_five three_times (omega arith) (omega arith)

abbrev tripped : BreakerData
unfolding breaker_new record_failure
tripped = record_failure (record_failure (breaker_new two_in_five) 1) 2

-- After a request at 8, which is the probe.
abbrev probed : BreakerData
unfolding tripped allow_request
probed = (allow_request tripped 8).1

tripped-state : tripped.state ≡ opened
unfolding tripped
tripped-state = refl

requests-opened_example : (requests tripped (4 ∷ 8 ∷ 9 ∷ [])).0 ≤ 1
requests-opened_example = requests-opened tripped (4 ∷ 8 ∷ 9 ∷ []) tripped-state

probed-state : probed.state ≡ half_open
unfolding probed cool_down
probed-state = refl

probed-probe : probed.probe_in_flight ≡ true
unfolding probed cool_down
probed-probe = refl

abbrev two_failures : List Call
two_failures = fail 1 ∷ allow 1 ∷ fail 2 ∷ []

two_failures-state : (run (breaker_new two_in_five) two_failures).state ≡ opened
unfolding breaker_new run call allow_request record_failure cool_down
two_failures-state = refl

open_ends_example :
    (t : ℕ) × ((now : ℕ)
      → t ≤ now
      → (allow_request (run (breaker_new two_in_five) two_failures) now).0 ≡ true)
open_ends_example = open_ends two_in_five two_failures two_failures-state
