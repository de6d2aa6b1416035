-- ===== src/Limiter/Shared.antt =====
-- One limiter for many keys: what a key can be granted among the calls for all of them.
use backend_infra_assessment.Base.{
  ℕ, ◌+◌, ◌-◌, ◌*◌, ◌≤◌, ◌<◌, ◌≡◌, inl, inr, String, Bool, true, Option, List, [], ◌∷◌, ◌||◌, leb,
  Bool-cases, ap, str_eq, str_eq_iff, All, sym, ◌&&◌, arith, if◌then◌else◌, is_ok,
}
use backend_infra_assessment.Domain.{Time}
use backend_infra_assessment.Database.{Platform}
use backend_infra_assessment.Limiter.Script.{Bucket, one_token, take_token, ttl_ms, last-take_token}
use backend_infra_assessment.Limiter.{Redis, allow, unix_milli}
use backend_infra_assessment.Limiter.Bound.{split-mul}
use backend_infra_assessment.Limiter.Level.{
  level, IsFair, level-le, level-soon, level-Kept, IsFair-Kept, level-le, level-take_token,
}
use backend_infra_assessment.Limiter.Contract.{Entry, bucket_of, Kept, milli, KeepsHashes, IsRedis}

-- A call of Allow, and whatever its caller does until the next.
pub record Ask (W : Type 0) : Type 0 where
  pub key : String
  pub per_minute : ℕ
  pub burst : ℕ
  pub next : Bool → W → W

module _ {W : Type 0} (p : Platform W) (rdb : Redis W) (key : String) where
  -- How many of the calls are granted a token of the key, and the world at the end.
  unfoldable pub grants : List (Ask W) → W → ℕ × W
  grants [] w = (0, w)
  grants (a ∷ asks) w =
      let (r, w') = allow p rdb a.key a.per_minute a.burst w in
      let (n, w'') = grants asks (a.next r.0 w') in
      ((if str_eq a.key key && r.0 then 1 else 0) + n, w'')

module _ {W : Type 0} (clock : W → Time) (stored : W → String → Option Entry) (p : Platform W)
    (rdb : Redis W) (h : IsRedis clock stored p rdb)
    (up : (key : String) (script : Option Bucket → Bool × Bucket) (ttl : ℕ) (w : W)
      → is_ok (rdb.run key script ttl w).0 ≡ true)
    (prompt : (w : W) → milli clock stored (p.time_now w).1 ≤ milli clock stored w + 1000)
    (per_minute burst : ℕ) (positive : 0 < per_minute) (key : String) where
  abbrev at : W → ℕ
  at = milli clock stored

  abbrev parts : W → ℕ
  parts w = level per_minute burst (at w) (stored w key)

  abbrev Fair : W → Type 0
  Fair w = IsFair per_minute burst (at w) (stored w key)

  -- Between two worlds the key has gained at most the refill, less a cost.
  abbrev Costs : ℕ → W → W → Type 0
  Costs cost w w' =
      (at w ≤ at w') × Fair w' × (parts w' + cost ≤ parts w + (at w' - at w) * per_minute)

  own :
      (w : W)
      → Fair w
      → let r = allow p rdb key per_minute burst w in Costs (if r.0.0 then one_token else 0) w r.1
  unfolding allow
  own w f = elim (Bool-cases (leb per_minute 0 || leb burst 0)) [
    | inl zero ↦ rw zero (omega arith, f, omega arith)
    | inr some_tokens ↦
        let w1 = (p.time_now w).1 in
        let now = unix_milli (p.time_now w).0 in
        let script = take_token per_minute burst now in
        let ttl = ttl_ms per_minute burst in
        let w2 = (rdb.run key script ttl w1).1 in
        let same : now ≡ at w = ap unix_milli (h.now_lem w) in
        let (le, kept) = h.now_keeps w key in
        let (granted, (deadline, lives, after)) =
          h.run_own key script ttl w1 (up key script ttl w1) in
        let le2 = h.run_clock key script ttl w1 in
        let last = last-take_token per_minute burst now (bucket_of (stored w1 key)) in
        let soon =
          level-soon per_minute burst (at w) (at w1) (stored w key) (stored w1 key) positive f kept
            (prompt w) in
        let cost =
          level-take_token per_minute burst now (at w2) deadline (stored w1 key)
            (omega (arith, same, le, le2)) in
        let moved =
          ap (λ (t : ℕ). level per_minute burst t (stored w1 key) + (at w2 - t) * per_minute)
            same in
        rw (some_tokens, granted, after)
          (
            omega (arith, le, le2),
            (omega (arith, last, same, le, le2), omega (arith, last, same, le, lives)),
            omega (arith, cost, moved, soon),
          )
  ]

  -- The key is left alone.
  free :
      (f : W → W)
      → (w : W) → (at w ≤ at (f w)) × Kept (at (f w)) (stored w key) (stored (f w) key)
      → Fair w
      → Costs 0 w (f w)
  free f w (le, kept) fine = (
    le,
    IsFair-Kept per_minute burst (at w) (at (f w)) (stored w key) (stored (f w) key) fine le kept,
    omega (
      arith,
      level-Kept per_minute burst (at w) (at (f w)) (stored w key) (stored (f w) key) positive fine
          le kept,
    ),
  )

  both : (c d : ℕ) (u v w : W) → Costs c u v → Costs d v w → Costs (c + d) u w
  both c d u v w (le, f, a) (le', g, b) = (
    omega (arith, le, le'),
    g,
    omega (arith, a, b, split-mul (at u) (at v) (at w) per_minute le le'),
  )

  other :
      (a : Ask W) (w : W)
      → ¬ (key ≡ a.key)
      → Fair w
      → Costs 0 w (allow p rdb a.key a.per_minute a.burst w).1
  unfolding allow
  other a w unlike f = elim (Bool-cases (leb a.per_minute 0 || leb a.burst 0)) [
    | inl zero ↦ rw zero (omega arith, f, omega arith)
    | inr some_tokens ↦
        let w1 = (p.time_now w).1 in
        let script = take_token a.per_minute a.burst (unix_milli (p.time_now w).0) in
        let ttl = ttl_ms a.per_minute a.burst in
        let first = free (λ w. (p.time_now w).1) w (h.now_keeps w key) f in
        let second =
          free (λ w. (rdb.run a.key script ttl w).1) w1
            (h.run_clock a.key script ttl w1, h.run_other a.key key script ttl w1 unlike) first.1 in
        rw some_tokens (both 0 0 w w1 _ first second)
  ]

  -- A call for the key is made at its rate, and what follows leaves the hashes alone.
  abbrev pub IsAsk : Ask W → Type 0
  IsAsk a =
      (a.key ≡ key → (a.per_minute ≡ per_minute) × (a.burst ≡ burst))
      × ((granted : Bool) → KeepsHashes clock stored (a.next granted))

  asked :
      (a : Ask W) (w : W)
      → IsAsk a
      → Fair w
      → let r = allow p rdb a.key a.per_minute a.burst w in
        Costs ((if str_eq a.key key && r.0.0 then 1 else 0) * one_token) w r.1
  asked a w (rate, keeps) f = elim (Bool-cases (str_eq a.key key)) [
    | inl same ↦
        let e = (str_eq_iff a.key key).0 same in
        let (m, b) = rate e in
        let (le, g, cost) = own w f in rw (same, e, m, b) (le, g, ground (arith, cost))
    | inr unlike ↦ rw unlike (other a w (λ e. cc (unlike, (str_eq_iff a.key key).1 (sym e))) f)
  ]

  grants-Costs :
      (asks : List (Ask W)) (w : W)
      → All IsAsk asks
      → Fair w
      → Costs ((grants p rdb key asks w).0 * one_token) w (grants p rdb key asks w).1
  unfolding grants
  grants-Costs [] w all f = (omega arith, f, omega arith)
  grants-Costs (a ∷ asks) w (is, all) f =
      let r = allow p rdb a.key a.per_minute a.burst w in
      let w2 = a.next r.0.0 r.1 in
      let first = asked a w is f in
      let second = free (a.next r.0.0) r.1 (is.1 r.0.0 r.1 key) first.1 in
      let rest = grants-Costs asks w2 all second.1 in
      let w3 = (grants p rdb key asks w2).1 in
      let one = (if str_eq a.key key && r.0.0 then 1 else 0) * one_token in
      let here = both one 0 w r.1 w2 first second in
      let (le, g, cost) =
        both (one + 0) ((grants p rdb key asks w2).0 * one_token) w w2 w3 here rest in
      (le, g, omega (arith, cost))

  -- Among calls for any keys, a key is granted at most its burst and the refill of the time that
  -- passes, also if Redis evicts its hash in between.
  pub key_bound :
      (asks : List (Ask W)) (w : W)
      → All IsAsk asks
      → Fair w
      → (grants p rdb key asks w).0 * one_token
        ≤ burst * one_token + (at (grants p rdb key asks w).1 - at w) * per_minute
  key_bound asks w all f =
      let (_, _, cost) = grants-Costs asks w all f in
      omega (arith, cost, level-le per_minute burst (at w) (stored w key))
