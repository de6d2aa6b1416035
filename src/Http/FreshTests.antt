-- ===== src/Http/FreshTests.antt =====
-- A page that says when it was made, kept for a minute.
use backend_infra_assessment.Base.{
  ◌+◌, ◌≤◌, ◌<◌, ◌≡◌, refl, sym, subst, inl, inr, String, Option, none, some, [], ◌∷◌, ok, str_eq,
  str_eq_iff, ltb, ◌==◌, if◌then◌else◌, arith, Bool-cases,
}
use backend_infra_assessment.Domain.{Uuid, Time, Duration}
use backend_infra_assessment.Http.{Served}
use backend_infra_assessment.Http.Cache.{Cache, CacheEntry, response_cache}
use backend_infra_assessment.Http.Visits.{Visit, visited}
use backend_infra_assessment.Http.Fresh.{
  IsTimedCache, IsTimedHandler, Expiry, Dated, visited-recent,
}
use backend_infra_assessment.Http.Tests.{page, page_codec, page_codec-IsEntryCodec}
use backend_infra_assessment.Tests.Memory.{still_platform, tally}
use backend_infra_assessment.Tests.Uuids.{still_platform-IsUuidText}

record Shop : Type 0 where
  clock : Time
  shelf : String → Option (String × Option Time)

abbrev clock_of : Shop → Time
clock_of w = w.clock

abbrev shelf_of : Shop → String → Option (String × Option Time)
shelf_of w = w.shelf

abbrev alive : Time → Option (String × Option Time) → Option String
alive now none = none
alive now (some (raw, none)) = some raw
alive now (some (raw, some deadline)) = if ltb now deadline then some raw else none

abbrev expiry_of : Time → Duration → Option Time
expiry_of now ttl = if ttl == 0 then none else some (now + ttl)

abbrev shop_cache : Cache Shop
shop_cache = record {
  get = λ key w. (ok (alive w.clock (w.shelf key)), w);
  set = λ key value ttl w. (
    ok tt,
    record w {
      shelf = λ k. if str_eq k key then some (value, expiry_of w.clock ttl) else w.shelf k;
    },
  );
}

same_value :
    {a b : String} {d : Option Time}
    → some a ≡ some b
    → Path (Option (String × Option Time)) (some (a, d)) (some (b, d))
same_value h = cc h

parts :
    {a b : String} {d e : Option Time}
    → Path (Option (String × Option Time)) (some (a, d)) (some (b, e))
    → (a ≡ b) × (d ≡ e)
parts h = (cc h, cc h)

some_inj : {a b : Time} → some a ≡ some b → a ≡ b
some_inj h = cc h

alive_lem :
    (now : Time) (x : Option (String × Option Time)) (raw : String)
    → alive now x ≡ some raw
    → (expiry : Option Time) × (x ≡ some (raw, expiry))
      × ((deadline : Time) → expiry ≡ some deadline → now < deadline)
alive_lem now none raw h = cc h
alive_lem now (some (value, none)) raw h = (none, same_value h, λ deadline e. cc e)
alive_lem now (some (value, some deadline)) raw h = elim (Bool-cases (ltb now deadline)) [
  | inl e ↦ (
    some deadline,
    same_value (rw e at h),
    λ due d. subst (λ x. now < x) (some_inj d) (ground (arith, e)),
  )
  | inr e ↦ cc (rw e at h)
]

expiry_of-Expiry : (now : Time) (ttl : Duration) → Expiry (now + 0) ttl (expiry_of now ttl)
expiry_of-Expiry now ttl = elim (Bool-cases (ttl == 0)) [
  | inl e ↦ rw e (inl (ground (arith, e), refl))
  | inr e ↦ rw e (inr (now + ttl, refl, omega arith))
]

shop_cache-IsTimedCache : IsTimedCache clock_of shelf_of 0 shop_cache
shop_cache-IsTimedCache = record {
  get_kept = λ key raw w h. alive_lem w.clock (w.shelf key) raw (cc h);
  get_keeps = λ key k x w h. h;
  get_clock = λ key w. omega arith;
  set_keeps = λ key value k raw ttl expiry w h. elim (Bool-cases (str_eq k key)) [
    | inl e ↦
        let (v, d) = parts (rw e at h) in
        inl (
          (str_eq_iff k key).0 e,
          sym v,
          subst (Expiry (w.clock + 0) ttl) d (expiry_of-Expiry w.clock ttl),
        )
    | inr e ↦ inr (rw e at h)
  ];
}

abbrev Made : String → Uuid → CacheEntry → Time → Type 0
Made path uid entry t = entry ≡ page (tally t)

abbrev clockwork : Served Shop CacheEntry
clockwork w = (ok (page (tally (w.clock + 1))), record w { clock = w.clock + 1 })

clockwork-IsTimedHandler :
    (path : String) (uid : Uuid)
    → IsTimedHandler still_platform shop_cache page_codec 60 0 clock_of shelf_of Made path uid
        clockwork
unfolding Dated
clockwork-IsTimedHandler path uid = record {
  answers = λ entry w h. sym (cc h);
  keeps = λ w h. h;
  later = λ w. omega arith;
}

abbrev visit : Visit Shop
visit = record { path = "/auth/me"; user_id = 3; next = clockwork }

abbrev opening : Shop
opening = record { clock = 3; shelf = λ key. none }

Dated-opening : Dated still_platform shop_cache page_codec 60 0 clock_of shelf_of Made opening
unfolding Dated
Dated-opening = λ path uid raw expiry entry h k. cc h

-- The second request is replayed the page of the first.
replayed :
    (response_cache still_platform shop_cache page_codec 60 "/auth/me" 3 clockwork
      (visited still_platform shop_cache page_codec 60 (visit ∷ []) opening)).0.result
    ≡ ok (page "1111")
unfolding response_cache visited tally
replayed = refl

visited-recent_example :
    (t : Time) × (page "1111" ≡ page (tally t))
    × (clock_of (visited still_platform shop_cache page_codec 60 (visit ∷ []) opening) ≤ t + 0 + 60)
visited-recent_example =
    visited-recent still_platform shop_cache page_codec 60 0 clock_of shelf_of Made
      still_platform-IsUuidText shop_cache-IsTimedCache (omega arith) page_codec-IsEntryCodec
      (visit ∷ []) visit (page "1111") opening (clockwork-IsTimedHandler "/auth/me" 3, tt)
      (clockwork-IsTimedHandler "/auth/me" 3) Dated-opening replayed
