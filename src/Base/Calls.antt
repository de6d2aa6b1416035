-- ===== src/Base/Calls.antt =====
-- Calls that read and change the outside world (database, cache, clock, random source) and may
-- fail. What was done before a failure stays done, so the world comes back beside the error too.
use mathlib.Core.Path.{◌≡◌, refl}
use mathlib.Core.Logic.{◌⊎◌, inl, inr}
use mathlib.Core.Bool.{Bool, true, false}

-- A Go `(A, error)`: exactly one of a value and an error of type `E`.
pub data Result {ℓ} (E A : Type ℓ) : Type ℓ where
  ok : A → Result E A
  err : E → Result E A

abbrev pub Exec {ℓ} : Type ℓ → Type ℓ → Type ℓ → Type ℓ
Exec W E A = W → Result E A × W

module _ {ℓ} {W E A : Type ℓ} where
  abbrev pub pure : A → Exec W E A
  pure a w = (ok a, w)

  abbrev pub raise : E → Exec W E A
  raise e w = (err e, w)

  -- A call that cannot fail, such as reading the clock.
  abbrev pub always : (W → A × W) → Exec W E A
  always f w = (ok (f w).0, (f w).1)

  -- `v, err := m`, where the code goes on to look at `err` itself.
  abbrev pub caught : Exec W E A → Exec W E (Result E A)
  caught m w = (ok (m w).0, (m w).1)

module _ {ℓ} {W E A B : Type ℓ} where
  abbrev pub continue : Result E A → (A → Exec W E B) → Exec W E B
  continue (ok a) f w = f a w
  continue (err e) f w = (err e, w)

  infixl 10 ◌>>=◌ ◌>>◌
  -- `v, err := m; if err != nil { return nil, err }`
  abbrev pub ◌>>=◌ : Exec W E A → (A → Exec W E B) → Exec W E B
  ◌>>=◌ m f w = continue (m w).0 f (m w).1

  abbrev pub ◌>>◌ : Exec W E A → Exec W E B → Exec W E B
  m >> n = m >>= λ _. n

-- `err == nil`
abbrev pub is_ok {ℓ} : {E A : Type ℓ} → Result E A → Bool
is_ok (ok a) = true
is_ok (err e) = false

-- To split on the outcome of a call and keep the equation.
pub Result-cases {ℓ} :
    {E A : Type ℓ} (r : Result E A) → ((a : A) × (r ≡ ok a)) ⊎ ((e : E) × (r ≡ err e))
Result-cases (ok a) = inl (a, refl)
Result-cases (err e) = inr (e, refl)

-- A sequence that succeeds has parts that do.
pub >>=-eq-ok {ℓ} :
    {W E A B : Type ℓ} (m : Exec W E A) (f : A → Exec W E B) (w : W) {b : B}
    → ((m >>= f) w).0 ≡ ok b
    → (a : A) × ((m w).0 ≡ ok a) × ((f a (m w).1).0 ≡ ok b) × (((m >>= f) w).1 ≡ (f a (m w).1).1)
>>=-eq-ok m f w h = elim (Result-cases (m w).0) [
  | inl (a, e) ↦ (a, e, rw e at h, rw e refl)
  | inr (x, e) ↦ cc (e, h)
]
