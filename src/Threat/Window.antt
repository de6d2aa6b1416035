-- ===== src/Threat/Window.antt =====
-- earliest of internal/service/threat_service.go.
use backend_infra_assessment.Base.{
  ◌≡◌, ◌≤◌, inl, inr, Option, none, some, List, [], ◌∷◌, ltb, All, All-imp, Option-cases, subst,
  NewestFirst, arith, if◌then◌else◌, refl,
}
use backend_infra_assessment.Domain.{Time, LoginAttempt, AuditEvent}

-- `xs[len(xs)-1]`, where there is one.
abbrev pub last {ℓ} : {A : Type ℓ} → List A → Option A
last [] = none
last (x ∷ []) = some x
last (x ∷ y ∷ xs) = last (y ∷ xs)

-- `consider(t)`
abbrev pub consider : Option Time → Time → Option Time
consider none t = some t
consider (some oldest) t = if ltb t oldest then some t else some oldest

-- `if n := len(xs); n > 0 { consider(xs[n-1].CreatedAt) }`
abbrev pub considered : {A : Type 0} → (A → Time) → Option Time → Option A → Option Time
considered time oldest none = oldest
considered time oldest (some x) = consider oldest (time x)

unfoldable pub earliest : List LoginAttempt → List AuditEvent → Option Time
earliest attempts events =
    considered (λ (e : AuditEvent). e.created_at)
      (considered (λ (a : LoginAttempt). a.created_at) none (last attempts)) (last events)

last-le :
    {A : Type 0} (time : A → Time) (xs : List A) (l : A)
    → NewestFirst time xs
    → last xs ≡ some l
    → All (λ y. time l ≤ time y) xs
last-le time [] l h e = tt
last-le time (x ∷ []) l h e =
    let same : x ≡ l = cc e in (subst (λ z. time z ≤ time x) same (omega arith), tt)
last-le time (x ∷ y ∷ xs) l (h, k) e =
    let rest = last-le time (y ∷ xs) l k e in (omega (arith, h.0, rest.0), rest)

pub last-none : {A : Type 0} (xs : List A) → last xs ≡ none → xs ≡ []
last-none [] e = refl
last-none (x ∷ []) e = cc e
last-none (x ∷ y ∷ xs) e = cc (last-none (y ∷ xs) e)

All-le :
    {A : Type 0} (time : A → Time) (xs : List A) (a t : Time)
    → t ≤ a
    → All (λ y. a ≤ time y) xs
    → All (λ y. t ≤ time y) xs
All-le time xs a t h k =
    All-imp (λ y. a ≤ time y) (λ y. t ≤ time y) xs (λ y i. omega (arith, h, i)) k

-- The time that is returned is no later than that of any attempt or event.
pub earliest-le :
    (attempts : List LoginAttempt) (events : List AuditEvent) (t : Time)
    → NewestFirst (λ a. a.created_at) attempts
    → NewestFirst (λ e. e.created_at) events
    → earliest attempts events ≡ some t
    → All (λ a. t ≤ a.created_at) attempts × All (λ e. t ≤ e.created_at) events
unfolding earliest
earliest-le attempts events t h k e =
    let at : LoginAttempt → Time = λ a. a.created_at in
    let on : AuditEvent → Time = λ e. e.created_at in
    elim (Option-cases (last attempts)) [
      | inl f ↦ elim (Option-cases (last events)) [
        | inl g ↦ cc (rw (f, g) at e)
        | inr (b, g) ↦
            let same = rw (f, g) at e in
            let none_there = last-none attempts f in
            (
              rw none_there tt,
              All-le on events b.created_at t (ground (arith, same)) (last-le on events b k g),
            )
      ]
      | inr (a, f) ↦ elim (Option-cases (last events)) [
        | inl g ↦
            let none_there = last-none events g in
            (
              All-le at attempts a.created_at t (ground (arith, (rw (f, g) at e)))
                  (last-le at attempts a h f),
              rw none_there tt,
            )
        | inr (b, g) ↦
            let picked = rw (f, g) at e in
            (
              All-le at attempts a.created_at t (ground (arith, picked))
                  (last-le at attempts a h f),
              All-le on events b.created_at t (ground (arith, picked)) (last-le on events b k g),
            )
      ]
    ]
