-- ===== src/Http/Isolation.antt =====
-- pkg/cache and internal/middleware/response_cache.go: the keys of users, and what is kept under them.
use Prim.Native.String.{String}
use backend_infra_assessment.Base.{
  ◌≡◌, ◌⊎◌, inl, inr, Option, some, Result, ok, err, ◌==◌, Result-cases, Option-cases, Bool-cases,
  refl, subst,
}
use backend_infra_assessment.Domain.{Uuid, uuid_nil, Duration}
use backend_infra_assessment.Database.{Platform}
use backend_infra_assessment.Http.{Refusal, Served}
use backend_infra_assessment.Http.Keys.{IsUuidText, user_key-inj}
use backend_infra_assessment.Http.Cache.{
  Cache, CacheEntry, EntryCodec, cache_key, replayable, replayable-some, store, response_cache,
}

-- What a cache holds under a key came from a Set of that key, and may be gone at any time.
pub record IsCache {W : Type 0} (kept : W → String → Option String) (c : Cache W) : Type 0 where
  pub get_kept :
      (key raw : String) (w : W) → (c.get key w).0 ≡ ok (some raw) → kept w key ≡ some raw
  pub get_keeps :
      (key k raw : String) (w : W) → kept (c.get key w).1 k ≡ some raw → kept w k ≡ some raw
  pub set_keeps :
      (key value k raw : String) (ttl : Duration) (w : W)
      → kept (c.set key value ttl w).1 k ≡ some raw
      → ((k ≡ key) × (raw ≡ value)) ⊎ (kept w k ≡ some raw)

-- Different users have different keys, whatever the routes.
pub cache_key-inj :
    {W : Type 0} (p : Platform W)
    → IsUuidText p
    → (path path' : String) (u v : Uuid) → cache_key p path u ≡ cache_key p path' v
    → (path ≡ path') × (u ≡ v)
cache_key-inj p h path path' u v e = user_key-inj p h "cache:GET:" path path' u v e

-- encoding/json: what a written entry is read back as.
unfoldable pub IsEntryCodec : EntryCodec → Type 0
IsEntryCodec codec =
    (entry entry' : CacheEntry) (raw : String)
    → codec.marshal entry ≡ ok raw
    → codec.unmarshal raw ≡ ok entry'
    → entry' ≡ entry

module _ {W : Type 0} (p : Platform W) (c : Cache W) (codec : EntryCodec) (ttl : Duration)
    (kept : W → String → Option String) (Own : String → Uuid → CacheEntry → Type 0) where
  -- What the cache holds under the key of a route and a user decodes to one of the user's responses.
  unfoldable pub Owned : W → Type 0
  Owned w =
      (full_path : String) (uid : Uuid) (raw : String) (entry : CacheEntry)
      → kept w (cache_key p full_path uid) ≡ some raw
      → codec.unmarshal raw ≡ ok entry
      → Own full_path uid entry

  keep-Owned :
      IsUuidText p
      → IsCache kept c
      → IsEntryCodec codec
      → (path : String) (uid : Uuid) (entry : CacheEntry) (raw : String) (w : W)
      → codec.marshal entry ≡ ok raw
      → Own path uid entry
      → Owned w
      → Owned (c.set (cache_key p path uid) raw ttl w).1
  unfolding Owned IsEntryCodec
  keep-Owned t h codes path uid entry raw w m own owned = λ path' uid' raw' entry' k e.
      elim (h.set_keeps (cache_key p path uid) raw (cache_key p path' uid') raw' ttl w k) [
        | inl (same, f) ↦
            let (g, i) = cache_key-inj p t path' path uid' uid same in
            let back = codes entry entry' raw m (rw f at e) in rw (g, i, back) own
        | inr old ↦ owned path' uid' raw' entry' old e
      ]

  get-Owned : IsCache kept c → (key : String) (w : W) → Owned w → Owned (c.get key w).1
  unfolding Owned
  get-Owned h key w owned = λ path uid raw entry k e.
      owned path uid raw entry (h.get_keeps key (cache_key p path uid) raw w k) e

  store-Owned :
      IsUuidText p
      → IsCache kept c
      → IsEntryCodec codec
      → (path : String) (uid : Uuid) (r : Result Refusal CacheEntry) (w : W)
      → ((entry : CacheEntry) → r ≡ ok entry → Own path uid entry)
      → Owned w
      → Owned (store p c codec ttl (cache_key p path uid) r w)
  store-Owned t h codes path uid (err e) w own owned = owned
  store-Owned t h codes path uid (ok entry) w own owned = elim (Bool-cases (entry.status == 200)) [
    | inr e ↦ rw e owned
    | inl e ↦ elim (Result-cases (codec.marshal entry)) [
      | inl (raw, m) ↦
          rw (e, m) (keep-Owned t h codes path uid entry raw w m (own entry refl) owned)
      | inr (x, m) ↦ rw (e, m) owned
    ]
  ]

  -- The handler behind the cache answers a user's request with one of the user's responses, and
  -- leaves the cache as it should be.
  pub record IsHandlerOf (path : String) (uid : Uuid) (next : Served W CacheEntry) : Type 0 where
    pub own : (entry : CacheEntry) (w : W) → (next w).0 ≡ ok entry → Own path uid entry
    pub keeps : (w : W) → Owned w → Owned (next w).1

  -- What the cache holds stays each user's own, whichever way the request goes.
  pub response_cache-Owned :
      IsUuidText p
      → IsCache kept c
      → IsEntryCodec codec
      → (path : String) (uid : Uuid) (next : Served W CacheEntry) (w : W)
      → IsHandlerOf path uid next
      → Owned w
      → Owned (response_cache p c codec ttl path uid next w).1
  unfolding response_cache
  response_cache-Owned t h codes path uid next w serves owned =
      let found = c.get (cache_key p path uid) w in
      let asked = get-Owned h (cache_key p path uid) w owned in
      elim (Bool-cases (uid == uuid_nil)) [
        | inl e ↦ rw e (serves.keeps w owned)
        | inr e ↦ elim (Option-cases (replayable codec found.0)) [
          | inl f ↦
              rw (e, f)
                (store-Owned t h codes path uid (next found.1).0 (next found.1).1
                  (λ entry k. serves.own entry found.1 k) (serves.keeps found.1 asked))
          | inr (entry, f) ↦ rw (e, f) asked
        ]
      ]

  -- A user is served one of the user's own responses of the route, replayed or not.
  pub response_cache-own :
      IsCache kept c
      → (path : String) (uid : Uuid) (entry : CacheEntry) (next : Served W CacheEntry) (w : W)
      → IsHandlerOf path uid next
      → Owned w
      → (response_cache p c codec ttl path uid next w).0.result ≡ ok entry
      → Own path uid entry
  unfolding response_cache Owned
  response_cache-own h path uid entry next w serves owned k =
      let found = c.get (cache_key p path uid) w in
      elim (Bool-cases (uid == uuid_nil)) [
        | inl e ↦ serves.own entry w (rw e at k)
        | inr e ↦ elim (Option-cases (replayable codec found.0)) [
          | inl f ↦ serves.own entry found.1 (rw (e, f) at k)
          | inr (entry', f) ↦
              let (raw, g, i) = replayable-some codec found.0 entry' f in
              let sent = rw (e, f) at k in
              subst (λ x. Own path uid x) (cc sent)
                (owned path uid raw entry' (h.get_kept (cache_key p path uid) raw w g) i)
        ]
      ]
