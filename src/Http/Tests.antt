-- ===== src/Http/Tests.antt =====
-- The guards, the routes and the response cache over small worlds in memory.
use Prim.Native.String.{String}
use backend_infra_assessment.Base.{
  List, [], ◌∷◌, ◌≡◌, refl, sym, ap, ◌∙◌, inl, inr, Option, none, some, ok, err, str_eq, str_eq_iff,
  ◌==◌, ◌&&◌, if◌then◌else◌, arith, Bool-cases,
}
use backend_infra_assessment.Domain.{Uuid}
use backend_infra_assessment.Tests.Memory.{still_platform, tally}
use backend_infra_assessment.Tests.Uuids.{still_platform-IsUuidText}
use backend_infra_assessment.Http.{Served}
use backend_infra_assessment.Http.Visits.{Visit, visited, visited-own}
use backend_infra_assessment.Http.Cache.{Cache, CacheEntry, EntryCodec, Answer, hit, response_cache}
use backend_infra_assessment.Http.Isolation.{
  IsCache, IsEntryCodec, Owned, IsHandlerOf, response_cache-Owned,
}

-- A cache that keeps everything.
abbrev Shelf : Type 0
Shelf = String → Option String

abbrev shelf_cache : Cache Shelf
shelf_cache = record {
  get = λ key w. (ok (w key), w);
  set = λ key value ttl w. (ok tt, λ k. if str_eq k key then some value else w k);
}

shelf_cache-IsCache : IsCache (λ w. w) shelf_cache
shelf_cache-IsCache = record {
  get_kept = λ key raw w h. cc h;
  get_keeps = λ key k raw w h. h;
  set_keeps = λ key value k raw ttl w h. elim (Bool-cases (str_eq k key)) [
    | inl e ↦ let v = rw e at h in inl (ground (arith, e, str_eq_iff k key), sym (cc v))
    | inr e ↦ inr (rw e at h)
  ];
}

abbrev pub json : String
json = "application/json"

abbrev pub page : String → CacheEntry
page body = record { status = 200; content_type = json; body = body }

-- A codec of pages.
abbrev pub page_codec : EntryCodec
page_codec = record {
  marshal = λ entry.
      if (entry.status == 200) && str_eq entry.content_type json
      then ok entry.body
      else err "unsupported";
  unmarshal = λ raw. ok (page raw);
}

pub page_codec-IsEntryCodec : IsEntryCodec page_codec
unfolding IsEntryCodec
page_codec-IsEntryCodec = λ entry entry' raw h k. elim (Bool-cases (entry.status == 200)) [
  | inr e ↦ cc (rw e at h)
  | inl e ↦ elim (Bool-cases (str_eq entry.content_type json)) [
    | inr f ↦ cc (rw (e, f) at h)
    | inl f ↦
        let g = rw (e, f) at h in
        let status : entry.status ≡ 200 = ground (arith, e) in
        let content : entry.content_type ≡ json =
          ground (arith, f, str_eq_iff entry.content_type json) in
        let body : Path String entry.body raw = cc g in
        sym (cc k) ∙ λ i. record {
          status = (sym status) i;
          content_type = (sym content) i;
          body = (sym body) i;
        }
  ]
]

-- The profile of each user.
abbrev IsPageOf : String → Uuid → CacheEntry → Type 0
IsPageOf path uid entry = entry ≡ page (tally uid)

abbrev profile : Uuid → Served Shelf CacheEntry
profile uid w = (ok (page (tally uid)), w)

profile-IsHandlerOf :
    (uid : Uuid)
    → IsHandlerOf still_platform shelf_cache page_codec 60
        (λ w. w)
        IsPageOf
        "/auth/me"
        uid
        (profile uid)
profile-IsHandlerOf uid = record {
  own = λ entry w h. let same : page (tally uid) ≡ entry = cc h in sym same;
  keeps = λ w h. h;
}

abbrev empty : Shelf
empty k = none

Owned-empty : Owned still_platform shelf_cache page_codec 60 (λ w. w) IsPageOf empty
unfolding Owned
Owned-empty = λ path uid raw entry h k. cc h

response_cache-Owned_example :
    Owned still_platform shelf_cache page_codec 60
      (λ w. w)
      IsPageOf
      (response_cache still_platform shelf_cache page_codec 60 "/auth/me" 3 (profile 3) empty).1
response_cache-Owned_example =
    response_cache-Owned still_platform shelf_cache page_codec 60 (λ w. w) IsPageOf
      still_platform-IsUuidText shelf_cache-IsCache page_codec-IsEntryCodec "/auth/me" 3 (profile 3)
      empty (profile-IsHandlerOf 3) Owned-empty

abbrev visit_of : Uuid → Visit Shelf
visit_of uid = record { path = "/auth/me"; user_id = uid; next = profile uid }

abbrev visits : List (Visit Shelf)
visits = visit_of 3 ∷ visit_of 4 ∷ []

-- The second request of a user is answered from the cache.
replayed :
    (response_cache still_platform shelf_cache page_codec 60 "/auth/me" 3
      (profile 3)
      (visited still_platform shelf_cache page_codec 60 visits empty)).0
    ≡ record { mark = some hit; result = ok (page "111") }
unfolding response_cache visited tally
replayed = refl

served_page :
    (response_cache still_platform shelf_cache page_codec 60 "/auth/me" 3
      (profile 3)
      (visited still_platform shelf_cache page_codec 60 visits empty)).0.result
    ≡ ok (page "111")
served_page = ap (λ (a : Answer). a.result) replayed

visited-own_example : IsPageOf "/auth/me" 3 (page "111")
visited-own_example =
    visited-own still_platform shelf_cache page_codec 60 (λ w. w) IsPageOf still_platform-IsUuidText
      shelf_cache-IsCache page_codec-IsEntryCodec visits (visit_of 3) (page "111") empty
      (profile-IsHandlerOf 3, (profile-IsHandlerOf 4, tt)) (profile-IsHandlerOf 3) Owned-empty
      served_page
