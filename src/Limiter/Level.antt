-- ===== src/Limiter/Level.antt =====
-- The tokens that a key has at a time, whether or not its hash has expired.
use backend_infra_assessment.Base.{
  ℕ, ◌+◌, ◌-◌, ◌*◌, ◌≤◌, ◌<◌, ◌≡◌, inl, inr, Option, none, some, subst, arith, if◌then◌else◌,
}
use backend_infra_assessment.Limiter.Script.{
  one_token, read, refill, take_token, ttl_ms, refill-full, take_token-refill, last-take_token,
}
use backend_infra_assessment.Limiter.Bound.{split-mul}
use backend_infra_assessment.Limiter.Contract.{Entry, bucket_of, Kept}

module _ (per_minute burst : ℕ) where
  -- The parts of tokens that a key has at a time.
  unfoldable pub level : ℕ → Option Entry → ℕ
  level now x = refill per_minute burst now (read burst now (bucket_of x))

  -- A hash was stored before, and lives until it is full again.
  abbrev pub IsFair : ℕ → Option Entry → Type 0
  IsFair now none = Unit
  IsFair now (some e) =
      (e.bucket.last ≤ now) × (e.bucket.last + ttl_ms per_minute burst ≤ e.deadline)

  pub level-le : (now : ℕ) (x : Option Entry) → level now x ≤ burst * one_token
  unfolding level refill
  level-le now x = omega arith

  level-later :
      (now later : ℕ) (x : Option Entry)
      → now ≤ later
      → IsFair now x
      → level later x ≤ level now x + (later - now) * per_minute
  unfolding level refill
  level-later now later none h f = omega arith
  level-later now later (some e) h (f, g) =
      omega (arith, split-mul e.bucket.last now later per_minute f h)

  -- Where a hash may be gone it is full.
  level-gone :
      (now later : ℕ) (old : Option Entry) (e : Entry)
      → 0 < per_minute
      → IsFair now old
      → old ≡ some e
      → e.deadline ≤ later + 1000
      → level later old ≡ burst * one_token
  unfolding level
  level-gone now later old e h f was gone =
      let (_, lives) = subst (λ x. IsFair now x) was f in
      rw was (refill-full per_minute burst later e.bucket h (omega (arith, lives, gone)))

  -- A hash that may have expired within a second after a time was full then.
  pub level-soon :
      (now later : ℕ) (old new : Option Entry)
      → 0 < per_minute
      → IsFair now old
      → Kept later old new
      → later ≤ now + 1000
      → level now new ≤ level now old
  level-soon now later old new h f (inl same) soon = rw same (omega arith)
  level-soon now later old new h f (inr (e, was, gone, is)) soon =
      omega (arith, level-le now new, level-gone now now old e h f was (omega arith))

  -- Time adds the refill, and what expires meanwhile was full.
  pub level-Kept :
      (now later : ℕ) (old new : Option Entry)
      → 0 < per_minute
      → IsFair now old
      → now ≤ later
      → Kept later old new
      → level later new ≤ level now old + (later - now) * per_minute
  level-Kept now later old new h f le (inl same) = rw same (level-later now later old le f)
  level-Kept now later old new h f le (inr (e, was, gone, is)) = omega (
    arith,
    level-le later new,
    level-gone now later old e h f was (omega arith),
    level-later now later old le f,
  )

  pub IsFair-Kept :
      (now later : ℕ) (old new : Option Entry)
      → IsFair now old
      → now ≤ later
      → Kept later old new
      → IsFair later new
  IsFair-Kept now later old new f le (inl same) = rw same (later_fair old f)
    where
      later_fair : (x : Option Entry) → IsFair now x → IsFair later x
      later_fair none g = tt
      later_fair (some e) (g, k) = (omega arith, k)
  IsFair-Kept now later old new f le (inr (e, was, gone, is)) = rw is tt

  -- What the script leaves, at a later time.
  pub level-take_token :
      (now later deadline : ℕ) (x : Option Entry)
      → now ≤ later
      → level later (
            some (record {
              bucket = (take_token per_minute burst now (bucket_of x)).1;
              deadline = deadline;
            }))
          + (if (take_token per_minute burst now (bucket_of x)).0 then one_token else 0)
        ≤ level now x + (later - now) * per_minute
  unfolding level refill
  level-take_token now later deadline x le =
      let cost = take_token-refill per_minute burst now (bucket_of x) in
      let at = last-take_token per_minute burst now (bucket_of x) in rw at (omega (arith, cost))
