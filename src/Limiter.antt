-- ===== src/Limiter.antt =====
-- pkg/ratelimit: the limiter around the token bucket that runs as a script in Redis.
pub mod Script
pub mod Bound
pub mod Contract
pub mod Level
pub mod Shared
mod Tests
use backend_infra_assessment.Base.{
  ℕ, ◌/◌, ◌<◌, ◌≡◌, ◌⊎◌, String, Bool, true, false, Option, none, some, Exec, Result, ok, err, leb,
  ◌||◌, is_ok, arith, if◌then◌else◌,
}
use backend_infra_assessment.Domain.{Time}
use backend_infra_assessment.Domain.Errors.{Error, external}
use backend_infra_assessment.Database.{Platform}
use backend_infra_assessment.Limiter.Script.{Bucket, take_token, ttl_ms}

-- ratelimit.Limiter: whether a key is granted a token at a rate per minute, and an error.
pub record Limiter (W : Type 0) : Type 0 where
  pub allow : String → ℕ → ℕ → W → (Bool × Option Error) × W

-- go-redis: running a script on the hash of a key, which then expires after some milliseconds.
pub record Redis (W : Type 0) : Type 0 where
  pub run : String → (Option Bucket → Bool × Bucket) → ℕ → Exec W String Bool

-- time.Now().UnixMilli()
abbrev pub unix_milli : Time → ℕ
unix_milli t = t / 1000000

-- `if err != nil { return true, err }; return res == 1, nil`
abbrev pub opened : Result String Bool → Bool × Option Error
opened (ok granted) = (granted, none)
opened (err e) = (true, some (external e))

module _ {W : Type 0} (p : Platform W) (rdb : Redis W) where
  unfoldable pub allow : String → ℕ → ℕ → W → (Bool × Option Error) × W
  allow key per_minute burst w =
      if leb per_minute 0 || leb burst 0
      then ((false, none), w)
      else let (now, w') = p.time_now w in
        let r =
          rdb.run key (take_token per_minute burst (unix_milli now)) (ttl_ms per_minute burst) w' in
        (opened r.0, r.1)

  unfoldable pub redis_limiter : Limiter W
  unfolding allow
  redis_limiter = record { allow = allow }

  -- A policy of no tokens refuses, and does not ask Redis.
  pub allow-zero :
      (key : String) (per_minute burst : ℕ) (w : W)
      → (per_minute ≡ 0) ⊎ (burst ≡ 0)
      → allow key per_minute burst w ≡ ((false, none), w)
  unfolding allow
  allow-zero key per_minute burst w h = ground arith

  -- Under any other policy a request is refused only if the script has run and found no token: an
  -- error of Redis lets it through.
  pub allow-refuses :
      (key : String) (per_minute burst : ℕ) (w : W)
      → 0 < per_minute
      → 0 < burst
      → (allow key per_minute burst w).0.0 ≡ false
      → (rdb.run key
          (take_token per_minute burst (unix_milli (p.time_now w).0))
          (ttl_ms per_minute burst)
          (p.time_now w).1).0
        ≡ ok false
  unfolding allow
  allow-refuses key per_minute burst w h k e = ground arith
