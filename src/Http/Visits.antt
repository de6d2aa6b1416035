-- ===== src/Http/Visits.antt =====
-- Sequences of requests that pass the response cache, by any users on any routes.
use backend_infra_assessment.Base.{◌≡◌, String, Option, List, [], ◌∷◌, ok, All}
use backend_infra_assessment.Domain.{Uuid, Duration}
use backend_infra_assessment.Database.{Platform}
use backend_infra_assessment.Http.{Served}
use backend_infra_assessment.Http.Cache.{Cache, CacheEntry, EntryCodec, response_cache}
use backend_infra_assessment.Http.Keys.{IsUuidText}
use backend_infra_assessment.Http.Isolation.{
  IsCache, IsEntryCodec, Owned, IsHandlerOf, response_cache-Owned, response_cache-own,
}

-- A request: the pattern of its route, its user, and the handler behind the cache.
pub record Visit (W : Type 0) : Type 0 where
  pub path : String
  pub user_id : Uuid
  pub next : Served W CacheEntry

module _ {W : Type 0} (p : Platform W) (c : Cache W) (codec : EntryCodec) (ttl : Duration) where
  -- The world after the requests.
  unfoldable pub visited : List (Visit W) → W → W
  visited [] w = w
  visited (v ∷ visits) w = visited visits (response_cache p c codec ttl v.path v.user_id v.next w).1

module _ {W : Type 0} (p : Platform W) (c : Cache W) (codec : EntryCodec) (ttl : Duration)
    (kept : W → String → Option String) (Own : String → Uuid → CacheEntry → Type 0) where
  -- The handler of a request answers with responses of its user and leaves the cache so.
  abbrev pub IsOwnVisit : Visit W → Type 0
  IsOwnVisit v = IsHandlerOf p c codec ttl kept Own v.path v.user_id v.next

  visited-Owned :
      IsUuidText p
      → IsCache kept c
      → IsEntryCodec codec
      → (visits : List (Visit W)) (w : W) → All IsOwnVisit visits
      → Owned p c codec ttl kept Own w
      → Owned p c codec ttl kept Own (visited p c codec ttl visits w)
  unfolding visited
  visited-Owned t h codes [] w all owned = owned
  visited-Owned t h codes (v ∷ visits) w (own, all) owned =
      visited-Owned t h codes visits (response_cache p c codec ttl v.path v.user_id v.next w).1 all
        (response_cache-Owned p c codec ttl kept Own t h codes v.path v.user_id v.next w own owned)

  -- After any requests of any users, one after another, that pass the response cache, on a cache that
  -- held for each user only the user's own responses: a request is answered with one of the own
  -- responses of its user on its route, replayed or not, where each handler answers with responses of its user and leaves the
  -- cache so.
  pub visited-own :
      IsUuidText p
      → IsCache kept c
      → IsEntryCodec codec
      → (visits : List (Visit W)) (v : Visit W) (entry : CacheEntry) (w : W) → All IsOwnVisit visits
      → IsOwnVisit v
      → Owned p c codec ttl kept Own w
      → (response_cache p c codec ttl v.path v.user_id v.next
          (visited p c codec ttl visits w)).0.result
        ≡ ok entry
      → Own v.path v.user_id entry
  visited-own t h codes visits v entry w all own owned k =
      response_cache-own p c codec ttl kept Own h v.path v.user_id entry v.next
        (visited p c codec ttl visits w) own (visited-Owned t h codes visits w all owned) k
