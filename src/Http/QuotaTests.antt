-- ===== src/Http/QuotaTests.antt =====
-- The quotas of users over a Redis in memory that never evicts a hash.
use backend_infra_assessment.Base.{
  ◌/◌, ◌+◌, ◌-◌, ◌*◌, ◌≤◌, ◌≡◌, refl, inl, String, Bool, Option, none, some, List, [], ◌∷◌, ok,
  str_eq, str_eq_iff, if◌then◌else◌, arith,
}
use backend_infra_assessment.Domain.{Time}
use backend_infra_assessment.Database.{Platform}
use backend_infra_assessment.Limiter.Script.{one_token, take_token, ttl_ms}
use backend_infra_assessment.Limiter.{Redis, redis_limiter, allow}
use backend_infra_assessment.Limiter.Contract.{Entry, bucket_of, milli, KeepsHashes, IsRedis}
use backend_infra_assessment.Http.Guard.{
  Identity, quota_for_role, rate_limit_by_role, within_quota, admit,
}
use backend_infra_assessment.Http.Keys.{IsUuidText}
use backend_infra_assessment.Http.Quota.{Arrival, let_through, quota_bound}
use backend_infra_assessment.Tests.Memory.{still_platform, tally}
use backend_infra_assessment.Tests.Uuids.{still_platform-IsUuidText}

record Desk : Type 0 where
  clock : Time
  hashes : String → Option Entry

abbrev clock_of : Desk → Time
clock_of w = w.clock

abbrev hashes_of : Desk → String → Option Entry
hashes_of w = w.hashes

abbrev desk_platform : Platform Desk
desk_platform = record still_platform { time_now = λ w. (w.clock, w) }

abbrev desk_redis : Redis Desk
desk_redis = record {
  run = λ key script ttl w.
      let r = script (bucket_of (w.hashes key)) in
      (
        ok r.0,
        record w {
          hashes = λ k.
              if str_eq k key
              then some (record { bucket = r.1; deadline = w.clock / 1000000 + ttl })
              else w.hashes k;
        },
      );
}

desk_redis-IsRedis : IsRedis clock_of hashes_of desk_platform desk_redis
desk_redis-IsRedis = record {
  now_lem = λ w. refl;
  now_keeps = λ w key. (omega arith, inl refl);
  run_own = λ key script ttl w up.
      let here = (str_eq_iff key key).1 refl in
      (refl, (w.clock / 1000000 + ttl, omega arith, rw here refl));
  run_clock = λ key script ttl w. omega arith;
  run_other = λ key other script ttl w unlike. inl (ground (arith, str_eq_iff other key));
}

desk_platform-IsUuidText : IsUuidText desk_platform
desk_platform-IsUuidText = record {
  no_colon = (still_platform-IsUuidText {W = Desk}).no_colon;
  unlike = (still_platform-IsUuidText {W = Desk}).unlike;
}

abbrev ann : Identity
ann = record { user_id = 3; role = "viewer" }

abbrev bob : Identity
bob = record { user_id = 4; role = "admin" }

-- Each request takes a second.
abbrev request : Identity → Arrival Desk
request who = record { who = who; next = λ granted w. record w { clock = w.clock + 1000000000 } }

abbrev arrivals : List (Arrival Desk)
arrivals = request ann ∷ request bob ∷ request ann ∷ []

abbrev opening : Desk
opening = record { clock = 5000000000; hashes = λ key. none }

running : Unit {0}
unfolding let_through rate_limit_by_role within_quota admit quota_for_role tally redis_limiter allow
    take_token ttl_ms
running = tt

both_let_through : (let_through desk_platform desk_redis ann arrivals opening).0 ≡ 2
unfolding running
both_let_through = refl

request_keeps :
    (who : Identity) (granted : Bool) → KeepsHashes clock_of hashes_of ((request who).next granted)
request_keeps who granted w key = (omega arith, inl refl)

quota_bound_example :
    (let_through desk_platform desk_redis ann arrivals opening).0 * one_token
    ≤ 10 * one_token
      + (milli clock_of hashes_of (let_through desk_platform desk_redis ann arrivals opening).1
          - milli clock_of hashes_of opening)
        * 30
unfolding running
quota_bound_example =
    quota_bound clock_of hashes_of desk_platform desk_redis ann desk_platform-IsUuidText
      desk_redis-IsRedis (λ key script ttl w. refl) (λ w. omega arith)
      (record { per_minute = 30; burst = 10 }) arrivals opening refl
      (request_keeps ann, (request_keeps bob, (request_keeps ann, tt))) tt
