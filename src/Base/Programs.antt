-- ===== src/Base/Programs.antt =====
-- A request as a program of single calls of the outside world, so that other requests can run
-- between any two of them.
use mathlib.Core.Path.{◌≡◌, refl}
use backend_infra_assessment.Base.Calls.{Result, ok, err, Exec, continue}

-- A program is over, or makes a call and goes on with what it returned.
pub data Program (W E A : Type 0) : Type 1 where
  stop : Result E A → Program W E A
  call : (B : Type 0) → (W → B × W) → (B → Program W E A) → Program W E A

module _ {W E : Type 0} where
  -- One call, whose error ends the program.
  abbrev pub statement : {A : Type 0} → Exec W E A → Program W E A
  statement {A} m = call (Result E A) m stop

  -- One call, whose error the program goes on to look at.
  abbrev pub attempted : {A : Type 0} → Exec W E A → Program W E (Result E A)
  attempted {A} m = call (Result E A) m (λ r. stop (ok r))

  -- One call that cannot fail.
  abbrev pub reading : {A : Type 0} → (W → A × W) → Program W E A
  reading {A} f = call A f (λ a. stop (ok a))

  infixl 10 ◌>>=◌ ◌>>◌
  unfoldable pub ◌>>=◌ : {A B : Type 0} → Program W E A → (A → Program W E B) → Program W E B
  stop (ok a) >>= f = f a
  stop (err e) >>= f = stop (err e)
  call X g k >>= f = call X g (λ x. k x >>= f)

  abbrev pub ◌>>◌ : {A B : Type 0} → Program W E A → Program W E B → Program W E B
  m >> n = m >>= λ _. n

  -- The program without another between its calls.
  unfoldable pub alone : {A : Type 0} → Program W E A → Exec W E A
  alone (stop r) w = (r, w)
  alone (call X g k) w = alone (k (g w).0) (g w).1

  pub alone->>= :
      {A B : Type 0} (m : Program W E A) (f : A → Program W E B) (w : W)
      → alone (m >>= f) w ≡ continue (alone m w).0 (λ a. alone (f a)) (alone m w).1
  unfolding alone ◌>>=◌
  alone->>= (stop (ok a)) f w = refl
  alone->>= (stop (err e)) f w = refl
  alone->>= (call X g k) f w = alone->>= (k (g w).0) f (g w).1
