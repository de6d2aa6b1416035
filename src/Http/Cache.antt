-- ===== src/Http/Cache.antt =====
-- pkg/cache/cache.go and internal/middleware/response_cache.go: responses of GET routes, kept for
-- each user. The bytes of a body are a text here, and encoding/json is a parameter.
use backend_infra_assessment.Base.{
  ℕ, ◌≡◌, String, Option, none, some, Result, ok, err, Exec, append, ◌==◌, arith, if◌then◌else◌,
  refl,
}
use backend_infra_assessment.Domain.{Uuid, uuid_nil, Duration}
use backend_infra_assessment.Database.{Platform}
use backend_infra_assessment.Http.{Refusal, Served}

-- cache.Cache: a missing key is `none`, an unreachable backend an error.
pub record Cache (W : Type 0) : Type 0 where
  pub get : String → Exec W String (Option String)
  pub set : String → String → Duration → Exec W String Unit

-- What go-redis answers where it has no value: redis.Nil, or an error.
pub data RedisError : Type 0 where
  redis_nil : RedisError
  redis_failure : String → RedisError

pub record RedisClient (W : Type 0) : Type 0 where
  pub get : String → Exec W RedisError String
  pub set : String → String → Duration → Exec W String Unit

abbrev pub got : Result RedisError String → Result String (Option String)
got (ok val) = ok (some val)
got (err redis_nil) = ok none
got (err (redis_failure e)) = err e

pub redis_cache : {W : Type 0} → RedisClient W → Cache W
redis_cache rdb = record {
  get = λ key w. (got (rdb.get key w).0, (rdb.get key w).1);
  set = λ key value ttl w. rdb.set key value ttl w;
}

pub record CacheEntry : Type 0 where
  pub status : ℕ
  pub content_type : String
  pub body : String

-- json.Marshal and json.Unmarshal of an entry.
pub record EntryCodec : Type 0 where
  pub marshal : CacheEntry → Result String String
  pub unmarshal : String → Result String CacheEntry

-- The X-Cache header.
pub data Mark : Type 0 where
  hit : Mark
  miss : Mark

-- The response, and the header if the cache was asked.
pub record Answer : Type 0 where
  pub mark : Option Mark
  pub result : Result Refusal CacheEntry

abbrev answer : Option Mark → Result Refusal CacheEntry → Answer
answer mark result = record { mark = mark; result = result }

-- The key of a route's pattern and a user.
abbrev pub cache_key : {W : Type 0} → Platform W → String → Uuid → String
cache_key p full_path uid = append "cache:GET:" (append full_path (append ":" (p.uuid_string uid)))

-- What json.Unmarshal made of the bytes.
abbrev pub decoded : Result String CacheEntry → Option CacheEntry
decoded (ok entry) = some entry
decoded (err e) = none

-- The entry that can be replayed: nothing on a miss, on an error and on bytes that do not decode.
abbrev pub replayable : EntryCodec → Result String (Option String) → Option CacheEntry
replayable codec (err e) = none
replayable codec (ok none) = none
replayable codec (ok (some raw)) = decoded (codec.unmarshal raw)

decoded-some :
    (r : Result String CacheEntry) (entry : CacheEntry) → decoded r ≡ some entry → r ≡ ok entry
decoded-some (ok entry') entry h = cc h
decoded-some (err e) entry h = cc h

pub replayable-some :
    (codec : EntryCodec) (found : Result String (Option String)) (entry : CacheEntry)
    → replayable codec found ≡ some entry
    → (raw : String) × (found ≡ ok (some raw)) × (codec.unmarshal raw ≡ ok entry)
replayable-some codec (err e) entry h = cc h
replayable-some codec (ok none) entry h = cc h
replayable-some codec (ok (some raw)) entry h =
    (raw, refl, decoded-some (codec.unmarshal raw) entry h)

module _ {W : Type 0} (p : Platform W) (c : Cache W) (codec : EntryCodec) (ttl : Duration) where
  -- `raw, err := json.Marshal(entry)`, and `_ = c.Set(...)`.
  abbrev keep_raw : String → Result String String → W → W
  keep_raw key (ok raw) w = (c.set key raw ttl w).1
  keep_raw key (err e) w = w

  -- What is stored after the handler has run: only a response of status 200.
  abbrev pub store : String → Result Refusal CacheEntry → W → W
  store key (ok entry) w = if entry.status == 200 then keep_raw key (codec.marshal entry) w else w
  store key (err no_reply) w = w

  abbrev replay : String → Option CacheEntry → Served W CacheEntry → W → Answer × W
  replay key (some entry) next w = (answer (some hit) (ok entry), w)
  replay key none next w = (answer (some miss) (next w).0, store key (next w).0 (next w).1)

  -- ResponseCache, on the route's pattern, the user of the request and the rest of the chain.
  unfoldable pub response_cache : String → Uuid → Served W CacheEntry → W → Answer × W
  response_cache full_path uid next w =
      if uid == uuid_nil
      then (answer none (next w).0, (next w).1)
      else (let found = c.get (cache_key p full_path uid) w in
          replay (cache_key p full_path uid) (replayable codec found.0) next found.1)

  -- Where the cache has nothing to replay, whatever the reason, the answer is the handler's.
  pub response_cache-miss :
      (full_path : String) (uid : Uuid) (next : Served W CacheEntry) (w : W)
      → replayable codec (c.get (cache_key p full_path uid) w).0 ≡ none
      → ¬ (uid ≡ uuid_nil)
      → (response_cache full_path uid next w).0.result
        ≡ (next (c.get (cache_key p full_path uid) w).1).0
  unfolding response_cache
  response_cache-miss full_path uid next w h k = ground (arith, h)

  -- A response that is replayed is the stored entry, and the handler does not run.
  pub response_cache-hit :
      (full_path : String) (uid : Uuid) (entry : CacheEntry) (next : Served W CacheEntry) (w : W)
      → replayable codec (c.get (cache_key p full_path uid) w).0 ≡ some entry
      → ¬ (uid ≡ uuid_nil)
      → response_cache full_path uid next w
        ≡ (answer (some hit) (ok entry), (c.get (cache_key p full_path uid) w).1)
  unfolding response_cache
  response_cache-hit full_path uid entry next w h k = ground (arith, h)
