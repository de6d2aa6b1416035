-- ===== src/Limiter/Bound.antt =====
-- How many tokens a key can be granted in a stretch of time.
use backend_infra_assessment.Base.{
  ℕ, ◌+◌, ◌-◌, ◌*◌, ◌≤◌, ◌<◌, ◌≡◌, Bool, true, false, Option, none, some, List, [], ◌∷◌, ltb, arith,
  refl, if◌then◌else◌, Bool-cases, inl, inr, sym, subst,
}
use backend_infra_assessment.Limiter.Script.{
  Bucket, one_token, take_token, ttl_ms, take_token-evicted, take_token-cost, last-take_token, read,
}

-- The hash that is still there at a time, after the PEXPIRE of the call that stored it.
unfoldable pub unexpired : ℕ → ℕ → ℕ → Bucket → Option Bucket
unexpired per_minute burst now b =
    if ltb now (b.last + ttl_ms per_minute burst) then some b else none

-- The calls at the given times for one key, from a stored hash on: how many are granted.
unfoldable pub granted : ℕ → ℕ → List ℕ → Bucket → ℕ
granted per_minute burst [] b = 0
granted per_minute burst (now ∷ times) b =
    let (grant, b') = take_token per_minute burst now (unexpired per_minute burst now b) in
    (if grant then 1 else 0) + granted per_minute burst times b'

-- Times in order, from one time to another.
abbrev pub InOrder : ℕ → List ℕ → ℕ → Type 0
InOrder from [] to = from ≤ to
InOrder from (t ∷ times) to = (from ≤ t) × InOrder t times to

InOrder-le : (from to : ℕ) (times : List ℕ) → InOrder from times to → from ≤ to
InOrder-le from to [] h = h
InOrder-le from to (t ∷ times) (h, k) = omega (arith, InOrder-le t to times k)

-- Eviction changes nothing.
unexpired_lem :
    (per_minute burst now : ℕ) (b : Bucket)
    → 0 < per_minute
    → take_token per_minute burst now (unexpired per_minute burst now b)
      ≡ take_token per_minute burst now (some b)
unfolding unexpired
unexpired_lem per_minute burst now b h =
    elim (Bool-cases (ltb now (b.last + ttl_ms per_minute burst))) [
      | inl alive ↦ rw alive refl
      | inr gone ↦ rw gone (sym (take_token-evicted per_minute burst now b h (ground arith)))
    ]

pub split-mul : (a b c m : ℕ) → a ≤ b → b ≤ c → (b - a) * m + (c - b) * m ≡ (c - a) * m
split-mul a b c m h k = grind arith

paid :
    (grant : Bool) (n left start stretch total : ℕ)
    → left + (if grant then one_token else 0) ≤ start
    → n * one_token ≤ left + stretch
    → start + stretch ≡ total
    → ((if grant then 1 else 0) + n) * one_token ≤ total
paid true n left start stretch total h k e = omega arith
paid false n left start stretch total h k e = omega arith

-- Calls in order, whatever their number, are granted at most the tokens that the key has and the
-- refill of the time that passes, also if Redis evicts the key in between.
pub granted_bound :
    (per_minute burst to : ℕ) (times : List ℕ) (b : Bucket)
    → 0 < per_minute
    → InOrder b.last times to
    → granted per_minute burst times b * one_token ≤ b.tokens + (to - b.last) * per_minute
unfolding granted
granted_bound per_minute burst to [] b h o = omega arith
granted_bound per_minute burst to (now ∷ times) b h (o, os) =
    let same = unexpired_lem per_minute burst now b h in
    let cost = take_token-cost per_minute burst now b in
    let b' = (take_token per_minute burst now (some b)).1 in
    let at = last-take_token per_minute burst now (some b) in
    let rest =
      granted_bound per_minute burst to times b' h (subst (λ t. InOrder t times to) (sym at) os) in
    let rest' : granted per_minute burst times b' * one_token
        ≤ b'.tokens + (to - now) * per_minute =
      subst (λ t. granted per_minute burst times b' * one_token ≤ b'.tokens + (to - t) * per_minute)
        at rest in
    let time = split-mul b.last now to per_minute o (InOrder-le now to times os) in
    rw same (
      paid (take_token per_minute burst now (some b)).0 (granted per_minute burst times b')
        b'.tokens (b.tokens + (now - b.last) * per_minute) ((to - now) * per_minute)
        (b.tokens + (to - b.last) * per_minute) cost rest' (omega (arith, time)))

-- From a full bucket, as for a key that Redis does not have: at most the burst, and the refill.
pub granted-le-burst :
    (per_minute burst now to : ℕ) (times : List ℕ)
    → 0 < per_minute
    → InOrder now times to
    → granted per_minute burst times (read burst now none) * one_token
      ≤ burst * one_token + (to - now) * per_minute
granted-le-burst per_minute burst now to times h o =
    granted_bound per_minute burst to times (read burst now none) h o
