-- ===== src/Http/Quota.antt =====
-- The quota of a user: RateLimitByRole over the limiter in Redis, for the requests of all users.
use backend_infra_assessment.Base.{
  ℕ, ◌+◌, ◌-◌, ◌*◌, ◌≤◌, ◌<◌, ◌≡◌, inl, inr, refl, ap, String, Bool, true, false, Option, none,
  some, List, [], ◌∷◌, map, All, is_ok, str_eq, str_eq_iff, ◌==◌, ==_iff, ◌&&◌, Bool-cases,
  Option-cases, arith, if◌then◌else◌,
}
use backend_infra_assessment.Domain.{Time, Role}
use backend_infra_assessment.Database.{Platform}
use backend_infra_assessment.Limiter.Script.{Bucket, one_token}
use backend_infra_assessment.Limiter.{Redis, allow, redis_limiter}
use backend_infra_assessment.Limiter.Contract.{Entry, milli, KeepsHashes, IsRedis}
use backend_infra_assessment.Limiter.Level.{IsFair}
use backend_infra_assessment.Limiter.Shared.{Ask, grants, key_bound}
use backend_infra_assessment.Http.Guard.{
  Identity, RoleQuota, quota_for_role, quota_key, rate_limit_by_role, within_quota, admit,
}
use backend_infra_assessment.Http.Keys.{IsUuidText, user_key-inj}

-- A request behind Auth: its user, and what is done once RateLimitByRole has let it through or not.
pub record Arrival (W : Type 0) : Type 0 where
  pub who : Identity
  pub next : Bool → W → W

-- The same user in the same role.
abbrev same : Identity → Identity → Bool
same a b = str_eq a.role b.role && a.user_id == b.user_id

module _ {W : Type 0} (p : Platform W) (rdb : Redis W) (who : Identity) where
  -- How many requests of a user are let through, and the world at the end.
  unfoldable pub let_through : List (Arrival W) → W → ℕ × W
  let_through [] w = (0, w)
  let_through (v ∷ arrivals) w =
      let (r, w') = rate_limit_by_role p (redis_limiter p rdb) v.who w in
      let (n, w'') = let_through arrivals (v.next (is_ok r) w') in
      ((if same v.who who && is_ok r then 1 else 0) + n, w'')

  -- A request as a call of the limiter; a role without a policy asks for nothing.
  abbrev ask_at : Arrival W → Option RoleQuota → Ask W
  ask_at v (some quota) = record {
    key = quota_key p (redis_limiter p rdb) v.who;
    per_minute = quota.per_minute;
    burst = quota.burst;
    next = v.next;
  }
  ask_at v none = record {
    key = quota_key p (redis_limiter p rdb) v.who;
    per_minute = 0;
    burst = 0;
    next = v.next;
  }

  abbrev ask_of : Arrival W → Ask W
  ask_of v = ask_at v (quota_for_role v.who.role)

  unlike :
      (v : Identity)
      → str_eq (quota_key p (redis_limiter p rdb) v) (quota_key p (redis_limiter p rdb) who) ≡ false
      → ¬ (same v who ≡ true)
  unlike v e f =
      let role : v.role ≡ who.role = (str_eq_iff v.role who.role).0 (ground (arith, f)) in
      let id : v.user_id ≡ who.user_id = (==_iff v.user_id who.user_id).0 (ground (arith, f)) in
      let mine = quota_key p (redis_limiter p rdb) v in
      let theirs = quota_key p (redis_limiter p rdb) who in
      let both : mine ≡ theirs = rw (role, id) refl in cc (e, (str_eq_iff mine theirs).1 both)

  key_same :
      IsUuidText p
      → (v : Identity)
      → str_eq (quota_key p (redis_limiter p rdb) v) (quota_key p (redis_limiter p rdb) who)
        ≡ same v who
  key_same t v =
      let mine = quota_key p (redis_limiter p rdb) v in
      let theirs = quota_key p (redis_limiter p rdb) who in
      elim (Bool-cases (str_eq mine theirs)) [
        | inl e ↦
            let (role, id) =
              user_key-inj p t "rl:role:" v.role who.role v.user_id who.user_id
                ((str_eq_iff mine theirs).0 e) in
            rw (e, (str_eq_iff v.role who.role).1 role, (==_iff v.user_id who.user_id).1 id) refl
        | inr e ↦ elim (Bool-cases (same v who)) [
          | inr f ↦ rw (e, f) refl
          | inl f ↦ absurd (unlike v e f)
        ]
      ]

  limit_as_call :
      (v : Arrival W) (w : W)
      → let r = rate_limit_by_role p (redis_limiter p rdb) v.who w in
        let a = ask_of v in
        let x = allow p rdb a.key a.per_minute a.burst w in
        (is_ok r.0 ≡ x.0.0)
        × (r.1 ≡ x.1)
        × (a.key ≡ quota_key p (redis_limiter p rdb) v.who)
        × (a.next ≡ v.next)
  unfolding rate_limit_by_role within_quota admit allow redis_limiter
  limit_as_call v w = elim (Option-cases (quota_for_role v.who.role)) [
    | inl unknown ↦ rw unknown (refl, refl, refl, refl)
    | inr (quota, known) ↦ rw known (ground arith, ground arith, refl, refl)
  ]

  as_calls :
      IsUuidText p
      → (arrivals : List (Arrival W)) (w : W)
      → let_through arrivals w
        ≡ grants p rdb (quota_key p (redis_limiter p rdb) who) (map ask_of arrivals) w
  unfolding let_through grants
  as_calls t [] w = refl
  as_calls t (v ∷ arrivals) w =
      let (admitted, world, key, next) = limit_as_call v w in
      rw (admitted, world, key, next, key_same t v.who, as_calls t arrivals) refl

-- Every role that has a policy refills.
quota_refills :
    (role : Role) (quota : RoleQuota) → quota_for_role role ≡ some quota → 0 < quota.per_minute
unfolding quota_for_role
quota_refills role quota h = ground (arith, h)

module _ {W : Type 0} (clock : W → Time) (stored : W → String → Option Entry) (p : Platform W)
    (rdb : Redis W) (who : Identity) where
  -- A call for the key of the user is made at the rate of the user's role.
  Fits : RoleQuota → Ask W → Type 0
  Fits quota a =
      (a.key ≡ quota_key p (redis_limiter p rdb) who
        → (a.per_minute ≡ quota.per_minute) × (a.burst ≡ quota.burst))
      × ((granted : Bool) → KeepsHashes clock stored (a.next granted))

  role_same :
      IsUuidText p
      → (v : Identity) → quota_key p (redis_limiter p rdb) v ≡ quota_key p (redis_limiter p rdb) who
      → v.role ≡ who.role
  role_same t v e = (user_key-inj p t "rl:role:" v.role who.role v.user_id who.user_id e).0

  ask_at-Fits :
      IsUuidText p
      → (quota : RoleQuota) (v : Arrival W) (q : Option RoleQuota)
      → quota_for_role who.role ≡ some quota
      → quota_for_role v.who.role ≡ q
      → ((granted : Bool) → KeepsHashes clock stored (v.next granted))
      → Fits quota (ask_at p rdb who v q)
  unfolding Fits
  ask_at-Fits t quota v none known unknown keep =
      (λ e. let role = role_same t v.who e in cc (known, unknown, ap quota_for_role role), keep)
  ask_at-Fits t quota v (some q) known has keep = (
    λ e.
        let role = role_same t v.who e in
        let one : q ≡ quota = cc (known, has, ap quota_for_role role) in
        (ap (λ (x : RoleQuota). x.per_minute) one, ap (λ (x : RoleQuota). x.burst) one),
    keep,
  )

  All-asks :
      IsUuidText p
      → (quota : RoleQuota) (arrivals : List (Arrival W)) → quota_for_role who.role ≡ some quota
      → All (λ v. (granted : Bool) → KeepsHashes clock stored (v.next granted)) arrivals
      → All (Fits quota) (map (ask_of p rdb who) arrivals)
  All-asks t quota [] known keeps = tt
  All-asks t quota (v ∷ arrivals) known (keep, keeps) = (
    ask_at-Fits t quota v (quota_for_role v.who.role) known refl keep,
    All-asks t quota arrivals known keeps,
  )

  -- However many requests of any users are handled one after another, on one clock that does not run
  -- back, a user of a role is let through at most the burst of the role and its refill in the time that
  -- passes, where Redis runs every script, at most a second passes between a reading of the clock and
  -- the run of its script, and also if Redis evicts the hash of the user in between.
  pub quota_bound :
      IsUuidText p
      → IsRedis clock stored p rdb
      → ((key : String) (script : Option Bucket → Bool × Bucket) (ttl : ℕ) (w : W)
          → is_ok (rdb.run key script ttl w).0 ≡ true)
      → ((w : W) → milli clock stored (p.time_now w).1 ≤ milli clock stored w + 1000)
      → (quota : RoleQuota) (arrivals : List (Arrival W)) (w : W)
      → quota_for_role who.role ≡ some quota
      → All (λ v. (granted : Bool) → KeepsHashes clock stored (v.next granted)) arrivals
      → IsFair quota.per_minute quota.burst
          (milli clock stored w)
          (stored w (quota_key p (redis_limiter p rdb) who))
      → (let_through p rdb who arrivals w).0 * one_token
        ≤ quota.burst * one_token
          + (milli clock stored (let_through p rdb who arrivals w).1 - milli clock stored w)
            * quota.per_minute
  unfolding Fits
  quota_bound t h up prompt quota arrivals w known keeps fair =
      rw (as_calls p rdb who t arrivals w) (
        key_bound clock stored p rdb h up prompt quota.per_minute quota.burst
          (quota_refills who.role quota known) (quota_key p (redis_limiter p rdb) who)
          (map (ask_of p rdb who) arrivals) w (All-asks t quota arrivals known keeps) fair)
