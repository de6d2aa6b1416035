-- ===== src/Limiter/Contract.antt =====
-- What go-redis and Redis document of a script: it runs whole on the hash of its key, which then
-- stays until its deadline at least; other keys only ever expire.
use backend_infra_assessment.Base.{
  ℕ, ◌+◌, ◌≤◌, ◌≡◌, ◌⊎◌, String, Bool, Option, none, some, ok, is_ok, true,
}
use backend_infra_assessment.Domain.{Time}
use backend_infra_assessment.Database.{Platform}
use backend_infra_assessment.Limiter.Script.{Bucket}
use backend_infra_assessment.Limiter.{Redis, unix_milli}

-- A stored hash, and the millisecond from which on it may be gone.
pub record Entry : Type 0 where
  pub bucket : Bucket
  pub deadline : ℕ

abbrev pub bucket_of : Option Entry → Option Bucket
bucket_of none = none
bucket_of (some e) = some e.bucket

-- A hash at a later time: it is as it was, or has expired.
abbrev pub Kept : ℕ → Option Entry → Option Entry → Type 0
Kept now old new = (new ≡ old) ⊎ ((e : Entry) × (old ≡ some e) × (e.deadline ≤ now) × (new ≡ none))

module _ {W : Type 0} (clock : W → Time) (stored : W → String → Option Entry) where
  abbrev pub milli : W → ℕ
  milli w = unix_milli (clock w)

  -- The hashes of a later world.
  abbrev pub KeepsHashes : (W → W) → Type 0
  KeepsHashes f =
      (w : W) (key : String)
      → (milli w ≤ milli (f w)) × Kept (milli (f w)) (stored w key) (stored (f w) key)

  pub record IsRedis (p : Platform W) (rdb : Redis W) : Type 0 where
    pub now_lem : (w : W) → (p.time_now w).0 ≡ clock w
    pub now_keeps : KeepsHashes (λ w. (p.time_now w).1)
    pub run_own :
        (key : String) (script : Option Bucket → Bool × Bucket) (ttl : ℕ) (w : W)
        → is_ok (rdb.run key script ttl w).0 ≡ true
        → ((rdb.run key script ttl w).0 ≡ ok (script (bucket_of (stored w key))).0)
          × ((deadline : ℕ) × (milli w + ttl ≤ deadline)
              × (stored (rdb.run key script ttl w).1 key
                  ≡ some (record {
                    bucket = (script (bucket_of (stored w key))).1;
                    deadline = deadline;
                  })))
    pub run_clock :
        (key : String) (script : Option Bucket → Bool × Bucket) (ttl : ℕ) (w : W)
        → milli w ≤ milli (rdb.run key script ttl w).1
    pub run_other :
        (key other : String) (script : Option Bucket → Bool × Bucket) (ttl : ℕ) (w : W)
        → ¬ (other ≡ key)
        → Kept
            (milli (rdb.run key script ttl w).1)
            (stored w other)
            (stored (rdb.run key script ttl w).1 other)
