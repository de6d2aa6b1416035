-- ===== src/Http/Fresh.antt =====
-- internal/middleware/response_cache.go: how old a replayed response can be.
use backend_infra_assessment.Base.{
  ◌+◌, ◌≤◌, ◌<◌, ◌≡◌, ◌⊎◌, inl, inr, refl, subst, String, Option, none, some, Result, ok, err, List,
  [], ◌∷◌, All, ◌==◌, Result-cases, Option-cases, Bool-cases, arith,
}
use backend_infra_assessment.Domain.{Uuid, uuid_nil, Time, Duration}
use backend_infra_assessment.Database.{Platform}
use backend_infra_assessment.Http.{Refusal, Served}
use backend_infra_assessment.Http.Cache.{
  Cache, CacheEntry, EntryCodec, cache_key, replayable, replayable-some, store, response_cache,
}
use backend_infra_assessment.Http.Keys.{IsUuidText}
use backend_infra_assessment.Http.Isolation.{IsEntryCodec, cache_key-inj}
use backend_infra_assessment.Http.Visits.{Visit, visited}

-- When a value expires that was set before `now`: never where its time to live is 0.
abbrev pub Expiry : Time → Duration → Option Time → Type 0
Expiry now ttl expiry =
    ((ttl ≡ 0) × (expiry ≡ none))
    ⊎ ((deadline : Time) × (expiry ≡ some deadline) × (deadline ≤ now + ttl))

-- Redis: a value is held until its deadline, which is the time to live after the Set that wrote it,
-- or without one where the time to live is 0; and a Set is made within a delay of its call.
pub record IsTimedCache {W : Type 0} (clock : W → Time)
    (kept : W → String → Option (String × Option Time)) (delay : Duration) (c : Cache W)
    : Type 0 where
  pub get_kept :
      (key raw : String) (w : W)
      → (c.get key w).0 ≡ ok (some raw)
      → (expiry : Option Time) × (kept w key ≡ some (raw, expiry))
        × ((deadline : Time) → expiry ≡ some deadline → clock w < deadline)
  pub get_keeps :
      (key k : String) (x : String × Option Time) (w : W)
      → kept (c.get key w).1 k ≡ some x
      → kept w k ≡ some x
  pub get_clock : (key : String) (w : W) → clock w ≤ clock (c.get key w).1
  pub set_keeps :
      (key value k raw : String) (ttl : Duration) (expiry : Option Time) (w : W)
      → kept (c.set key value ttl w).1 k ≡ some (raw, expiry)
      → ((k ≡ key) × (raw ≡ value) × Expiry (clock w + delay) ttl expiry)
        ⊎ (kept w k ≡ some (raw, expiry))

module _ {W : Type 0} (p : Platform W) (c : Cache W) (codec : EntryCodec) (ttl delay : Duration)
    (clock : W → Time) (kept : W → String → Option (String × Option Time))
    (Answered : String → Uuid → CacheEntry → Time → Type 0) where
  -- A response of a route to a user, given at a time from which on it is kept until another at most.
  abbrev pub Until : String → Uuid → CacheEntry → Time → Type 0
  Until path uid entry deadline =
      (t : Time) × Answered path uid entry t × (deadline ≤ t + delay + ttl)

  -- What is kept with an expiry is kept with a deadline, until which a response may be replayed.
  abbrev pub Due : String → Uuid → CacheEntry → Option Time → Type 0
  Due path uid entry expiry =
      (deadline : Time) × (expiry ≡ some deadline) × Until path uid entry deadline

  -- What the cache holds under the key of a route and a user was answered to the user, not longer
  -- before its deadline than the time to live.
  unfoldable pub Dated : W → Type 0
  Dated w =
      (path : String) (uid : Uuid) (raw : String) (expiry : Option Time) (entry : CacheEntry)
      → kept w (cache_key p path uid) ≡ some (raw, expiry)
      → codec.unmarshal raw ≡ ok entry
      → Due path uid entry expiry

  -- The handler behind the cache answers in time that passes, and leaves the cache as it should be.
  pub record IsTimedHandler (path : String) (uid : Uuid) (next : Served W CacheEntry) : Type 0 where
    pub answers :
        (entry : CacheEntry) (w : W)
        → (next w).0 ≡ ok entry
        → Answered path uid entry (clock (next w).1)
    pub keeps : (w : W) → Dated w → Dated (next w).1
    pub later : (w : W) → clock w ≤ clock (next w).1

  module _ (t : IsUuidText p) (h : IsTimedCache clock kept delay c) (lasts : 0 < ttl)
      (codes : IsEntryCodec codec) where
    get-Dated : (key : String) (w : W) → Dated w → Dated (c.get key w).1
    unfolding Dated
    get-Dated key w dated = λ path uid raw expiry entry k e.
        dated path uid raw expiry entry (h.get_keeps key (cache_key p path uid) (raw, expiry) w k) e

    keep-Dated :
        (path : String) (uid : Uuid) (entry : CacheEntry) (raw : String) (w : W)
        → codec.marshal entry ≡ ok raw
        → Answered path uid entry (clock w)
        → Dated w
        → Dated (c.set (cache_key p path uid) raw ttl w).1
    unfolding Dated IsEntryCodec
    keep-Dated path uid entry raw w m now dated = λ path' uid' raw' expiry entry' k e.
        elim (h.set_keeps (cache_key p path uid) raw (cache_key p path' uid') raw' ttl expiry w k) [
          | inl (same, f, due) ↦
              let (g, i) = cache_key-inj p t path' path uid' uid same in
              let back = codes entry entry' raw m (rw f at e) in
              elim due [
                | inl (never, none_kept) ↦ absurd (omega (arith, never, lasts))
                | inr (deadline, some_kept, soon) ↦
                    rw (g, i, back) (deadline, some_kept, (clock w, now, soon))
              ]
          | inr old ↦ dated path' uid' raw' expiry entry' old e
        ]

    store-Dated :
        (path : String) (uid : Uuid) (r : Result Refusal CacheEntry) (w : W)
        → ((entry : CacheEntry) → r ≡ ok entry → Answered path uid entry (clock w))
        → Dated w
        → Dated (store p c codec ttl (cache_key p path uid) r w)
    store-Dated path uid (err e) w now dated = dated
    store-Dated path uid (ok entry) w now dated = elim (Bool-cases (entry.status == 200)) [
      | inr e ↦ rw e dated
      | inl e ↦ elim (Result-cases (codec.marshal entry)) [
        | inl (raw, m) ↦ rw (e, m) (keep-Dated path uid entry raw w m (now entry refl) dated)
        | inr (x, m) ↦ rw (e, m) dated
      ]
    ]

    response_cache-Dated :
        (path : String) (uid : Uuid) (next : Served W CacheEntry) (w : W)
        → IsTimedHandler path uid next
        → Dated w
        → Dated (response_cache p c codec ttl path uid next w).1
    unfolding response_cache
    response_cache-Dated path uid next w serves dated =
        let found = c.get (cache_key p path uid) w in
        let asked = get-Dated (cache_key p path uid) w dated in
        elim (Bool-cases (uid == uuid_nil)) [
          | inl e ↦ rw e (serves.keeps w dated)
          | inr e ↦ elim (Option-cases (replayable codec found.0)) [
            | inl f ↦
                rw (e, f)
                  (store-Dated path uid (next found.1).0 (next found.1).1
                    (λ entry k. serves.answers entry found.1 k) (serves.keeps found.1 asked))
            | inr (entry, f) ↦ rw (e, f) asked
          ]
        ]

    response_cache-recent :
        (path : String) (uid : Uuid) (entry : CacheEntry) (next : Served W CacheEntry) (w : W)
        → IsTimedHandler path uid next
        → Dated w
        → (response_cache p c codec ttl path uid next w).0.result ≡ ok entry
        → Until path uid entry (clock w)
    unfolding response_cache Dated
    response_cache-recent path uid entry next w serves dated k =
        let found = c.get (cache_key p path uid) w in
        let asked = h.get_clock (cache_key p path uid) w in
        elim (Bool-cases (uid == uuid_nil)) [
          | inl e ↦
              (clock (next w).1, serves.answers entry w (rw e at k), omega (arith, serves.later w))
          | inr e ↦ elim (Option-cases (replayable codec found.0)) [
            | inl f ↦ (
              clock (next found.1).1,
              serves.answers entry found.1 (rw (e, f) at k),
              omega (arith, asked, serves.later found.1),
            )
            | inr (entry', f) ↦
                let (raw, g, i) = replayable-some codec found.0 entry' f in
                let sent = rw (e, f) at k in
                let (expiry, held, alive) = h.get_kept (cache_key p path uid) raw w g in
                let (deadline, dies, (since, was, due)) = dated path uid raw expiry entry' held i in
                (
                  since,
                  subst (λ x. Answered path uid x since) (cc sent) was,
                  omega (arith, alive deadline dies, due),
                )
          ]
        ]

    visited-Dated :
        (visits : List (Visit W)) (w : W)
        → All (λ v. IsTimedHandler v.path v.user_id v.next) visits
        → Dated w
        → Dated (visited p c codec ttl visits w)
    unfolding visited
    visited-Dated [] w all dated = dated
    visited-Dated (v ∷ visits) w (timed, all) dated =
        visited-Dated visits (response_cache p c codec ttl v.path v.user_id v.next w).1 all
          (response_cache-Dated v.path v.user_id v.next w timed dated)

  -- Where the time to live is positive, after any requests of any users, one after another, that
  -- pass the response cache: a request is answered with a response that its handler gave its user on
  -- its route, at most the time to live before the request came, up to the delay in which Redis makes
  -- a Set.
  pub visited-recent :
      IsUuidText p
      → IsTimedCache clock kept delay c
      → 0 < ttl
      → IsEntryCodec codec
      → (visits : List (Visit W)) (v : Visit W) (entry : CacheEntry) (w : W)
      → All (λ v. IsTimedHandler v.path v.user_id v.next) visits
      → IsTimedHandler v.path v.user_id v.next
      → Dated w
      → (response_cache p c codec ttl v.path v.user_id v.next
          (visited p c codec ttl visits w)).0.result
        ≡ ok entry
      → (t : Time) × Answered v.path v.user_id entry t
        × (clock (visited p c codec ttl visits w) ≤ t + delay + ttl)
  visited-recent t h lasts codes visits v entry w all timed dated k =
      response_cache-recent t h lasts codes v.path v.user_id entry v.next
        (visited p c codec ttl visits w) timed (visited-Dated t h lasts codes visits w all dated) k
