-- ===== src/Limiter/Script.antt =====
-- The script of pkg/ratelimit/redis_limiter.go. A rate is given in tokens per minute, as its callers
-- do (`float64(perMinute) / 60.0` per second), and tokens are counted in parts of 1/60000, so that
-- the refill of a millisecond is a whole number of parts and no rounding is left.
use backend_infra_assessment.Base.{
  ℕ, ◌+◌, ◌-◌, ◌*◌, ◌/◌, ◌≤◌, ◌<◌, ◌≡◌, Bool, true, false, Option, none, some, leb, min,
  if◌then◌else◌, arith, ap,
}

-- The hash of a key: `t` and `ts`.
pub record Bucket : Type 0 where
  pub tokens : ℕ
  pub last : ℕ

abbrev pub one_token : ℕ
one_token = 60000

-- What the script reads: a missing hash is a full bucket of now.
abbrev pub read : ℕ → ℕ → Option Bucket → Bucket
read burst now none = record { tokens = burst * one_token; last = now }
read burst now (some b) = b

-- `math.max(0, now - last)` is the truncated difference.
unfoldable pub refill : ℕ → ℕ → ℕ → Bucket → ℕ
refill per_minute burst now b = min (burst * one_token) (b.tokens + (now - b.last) * per_minute)

-- The script: whether a token is granted, and the hash that is stored.
unfoldable pub take_token : ℕ → ℕ → ℕ → Option Bucket → Bool × Bucket
unfolding refill
take_token per_minute burst now stored =
    let tokens = refill per_minute burst now (read burst now stored) in
    if leb one_token tokens
    then (true, record { tokens = tokens - one_token; last = now })
    else (false, record { tokens = tokens; last = now })

-- `math.ceil((burst / rate) * 1000) + 1000`
unfoldable pub ttl_ms : ℕ → ℕ → ℕ
ttl_ms per_minute burst = (burst * one_token + (per_minute - 1)) / per_minute + 1000

ceil_lem : (x m : ℕ) → 0 < m → x ≤ (x + (m - 1)) / m * m
ceil_lem x m h = grind arith

le-mul : (x c e m : ℕ) → x ≤ c * m → c ≤ e → x ≤ e * m
le-mul x c e m h k = grind arith

-- When the time in which an empty bucket fills has passed, a bucket is full.
pub refill-full :
    (per_minute burst now : ℕ) (b : Bucket)
    → 0 < per_minute
    → b.last + ttl_ms per_minute burst ≤ now + 1000
    → refill per_minute burst now b ≡ burst * one_token
unfolding refill ttl_ms
refill-full per_minute burst now b h k =
    let x = burst * one_token in
    let c = (x + (per_minute - 1)) / per_minute in
    let enough = le-mul x c (now - b.last) per_minute (ceil_lem x per_minute h) (omega arith) in
    omega (arith, enough)

-- A call costs its grant, of what the bucket holds after the refill.
pub take_token-refill :
    (per_minute burst now : ℕ) (stored : Option Bucket)
    → (take_token per_minute burst now stored).1.tokens
        + (if (take_token per_minute burst now stored).0 then one_token else 0)
      ≤ refill per_minute burst now (read burst now stored)
unfolding take_token
take_token-refill per_minute burst now stored = ground arith

-- Once the time to live of a key has passed, the script cannot tell whether Redis has evicted it:
-- the answer and the stored bucket are the same.
pub take_token-evicted :
    (per_minute burst now : ℕ) (b : Bucket)
    → 0 < per_minute
    → b.last + ttl_ms per_minute burst ≤ now
    → take_token per_minute burst now (some b) ≡ take_token per_minute burst now none
unfolding take_token ttl_ms
take_token-evicted per_minute burst now b h k =
    let x = burst * one_token in
    let c = (x + (per_minute - 1)) / per_minute in
    let enough = le-mul x c (now - b.last) per_minute (ceil_lem x per_minute h) (omega arith) in
    let full : refill per_minute burst now b ≡ refill per_minute burst now (read burst now none) =
      omega (arith, enough) in
    ap
      (λ (tokens : ℕ).
        if leb one_token tokens
        then (true, record { tokens = tokens - one_token; last = now })
        else (false, record { tokens = tokens; last = now }))
      full

-- A bucket never holds more than its burst.
pub take_token-le :
    (per_minute burst now : ℕ) (stored : Option Bucket)
    → (take_token per_minute burst now stored).1.tokens ≤ burst * one_token
unfolding take_token
take_token-le per_minute burst now stored = ground arith

-- A grant costs one token of what the refill allows, and a refusal means that there is no whole one.
pub take_token-cost :
    (per_minute burst now : ℕ) (b : Bucket)
    → (take_token per_minute burst now (some b)).1.tokens
        + (if (take_token per_minute burst now (some b)).0 then one_token else 0)
      ≤ b.tokens + (now - b.last) * per_minute
unfolding take_token
take_token-cost per_minute burst now b = ground arith

pub last-take_token :
    (per_minute burst now : ℕ) (stored : Option Bucket)
    → (take_token per_minute burst now stored).1.last ≡ now
unfolding take_token
last-take_token per_minute burst now stored = ground arith

-- After a refusal, a caller that waits for the time of one token is granted it.
pub take_token-after_refusal :
    (per_minute burst now later : ℕ) (stored : Option Bucket)
    → 0 < burst
    → (take_token per_minute burst now stored).0 ≡ false
    → one_token ≤ (later - now) * per_minute
    → (take_token per_minute burst later (some (take_token per_minute burst now stored).1)).0 ≡ true
unfolding take_token
take_token-after_refusal per_minute burst now later stored h k wait = ground arith
