-- ===== src/Limiter/Tests.antt =====
-- The bucket of an address on the login route: five attempts a minute, with a burst of five.
use backend_infra_assessment.Base.{
  ℕ, ◌+◌, ◌≤◌, ◌≡◌, refl, true, false, Option, none, some, List, [], ◌∷◌, arith, ok,
}
use backend_infra_assessment.Limiter.{Redis, allow}
use backend_infra_assessment.Limiter.Script.{
  Bucket, take_token, ttl_ms, refill, read, take_token-after_refusal,
}
use backend_infra_assessment.Limiter.Bound.{InOrder, granted, unexpired}
use backend_infra_assessment.Tests.Memory.{still_platform}

abbrev burst_of_calls : List ℕ
burst_of_calls = 1000 ∷ 1001 ∷ 1002 ∷ 1003 ∷ 1004 ∷ 1005 ∷ 1006 ∷ 30000 ∷ []

in_order : InOrder 1000 burst_of_calls 60000
in_order = (
  omega arith,
  (
    omega arith,
    (
      omega arith,
      (omega arith, (omega arith, (omega arith, (omega arith, (omega arith, omega arith))))),
    ),
  ),
)

six_granted : granted 5 5 burst_of_calls (read 5 1000 none) ≡ 6
unfolding granted unexpired take_token refill ttl_ms
six_granted = refl

abbrev used : Bucket
used = record { tokens = 30000; last = 1000 }

long_gone : used.last + ttl_ms 5 5 ≤ 100000
unfolding ttl_ms
long_gone = omega arith

refused : (take_token 5 5 1001 (some used)).0 ≡ false
unfolding take_token
refused = refl

take_token-after_refusal_example :
    (take_token 5 5 13001 (some (take_token 5 5 1001 (some used)).1)).0 ≡ true
take_token-after_refusal_example =
    take_token-after_refusal 5 5 1001 13001 (some used) (omega arith) refused (omega arith)

-- Redis with one key.
abbrev one_key : Redis (Option Bucket)
one_key = record { run = λ key script ttl w. (ok (script w).0, some (script w).1) }

abbrev drained : Bucket
drained = record { tokens = 0; last = 1000 }

turned_down : (allow still_platform one_key "rl:login:10.0.0.1" 5 5 (some drained)).0.0 ≡ false
unfolding allow take_token
turned_down = refl
