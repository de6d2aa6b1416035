-- ===== src/Auth/Concurrent/Rely.antt =====
-- What a request does and promises while other requests write between its statements.
use backend_infra_assessment.Base.{Bool, true, false, Result, ok, err, if◌then◌else◌}
use backend_infra_assessment.Base.Programs.{stop, call, ◌>>=◌}
use backend_infra_assessment.Domain.{Error}
use backend_infra_assessment.Database.Contract.{Db}
use backend_infra_assessment.Auth.Steps.{Steps, Steps-trans}
use backend_infra_assessment.Auth.Concurrent.{Request}

-- A statement about the outcome of a request, which later writes do not make false.
abbrev pub Outcome : Type 0 → Type 1
Outcome A = Result Error A → Db → Type 0

abbrev pub IsStable : {A : Type 0} → Outcome A → Type 0
IsStable {A} q = (r : Result Error A) (d e : Db) → Steps d e → q r d → q r e

module _ {W : Type 0} (view : W → Db) where
  -- Every statement of the request, in whatever world it is made, is a run of abstract writes.
  unfoldable pub IsLawful : {A : Type 0} → Request W A → Type 0
  IsLawful (stop r) = Unit
  IsLawful (call X g k) = ((w : W) → Steps (view w) (view (g w).1)) × ((x : X) → IsLawful (k x))

  -- From the tables `d` on, and whatever is written before each of its statements, the request
  -- ends in `q`.
  unfoldable pub Ensures : {A : Type 0} → Outcome A → Request W A → Db → Type 0
  Ensures q (stop r) d = q r d
  Ensures q (call X g k) d = (w : W) → Steps d (view w) → Ensures q (k (g w).0) (view (g w).1)

  module _ {A B : Type 0} where
    pub IsLawful->>= :
        (m : Request W A) (f : A → Request W B)
        → IsLawful m
        → ((a : A) → IsLawful (f a))
        → IsLawful (m >>= f)
    unfolding IsLawful ◌>>=◌
    IsLawful->>= (stop (ok a)) f h k = k a
    IsLawful->>= (stop (err e)) f h k = tt
    IsLawful->>= (call X g rest) f (h, hs) k = (h, λ x. IsLawful->>= (rest x) f (hs x) k)

    pub Ensures->>= :
        (r : Outcome A) (q : Outcome B) (m : Request W A) (f : A → Request W B) (d : Db)
        → Ensures r m d
        → ((a : A) (e : Db) → r (ok a) e → Ensures q (f a) e)
        → ((x : Error) (e : Db) → r (err x) e → q (err x) e)
        → Ensures q (m >>= f) d
    unfolding Ensures ◌>>=◌
    Ensures->>= r q (stop (ok a)) f d h k l = k a d h
    Ensures->>= r q (stop (err x)) f d h k l = l x d h
    Ensures->>= r q (call X g rest) f d h k l =
        λ w st. Ensures->>= r q (rest (g w).0) f (view (g w).1) (h w st) k l

  module _ {A : Type 0} where
    pub IsLawful-if :
        (b : Bool) (m n : Request W A) → IsLawful m → IsLawful n → IsLawful (if b then m else n)
    IsLawful-if true m n h k = h
    IsLawful-if false m n h k = k

    pub Ensures-later :
        (q : Outcome A) (m : Request W A) (d e : Db)
        → IsStable q
        → Steps d e
        → Ensures q m d
        → Ensures q m e
    unfolding Ensures
    Ensures-later q (stop r) d e stable st h = stable r d e st h
    Ensures-later q (call X g k) d e stable st h = λ w st'. h w (Steps-trans st st')

    -- What holds of every outcome after `d` is ensured.
    pub Ensures-all :
        (q : Outcome A) (m : Request W A) (d : Db)
        → IsLawful m
        → ((r : Result Error A) (e : Db) → Steps d e → q r e)
        → Ensures q m d
    unfolding Ensures IsLawful
    Ensures-all q (stop r) d h all = all r d Steps.done
    Ensures-all q (call X g k) d (h, hs) all = λ w st.
        Ensures-all q (k (g w).0) (view (g w).1) (hs (g w).0)
          (λ r e st'. all r e (Steps-trans (Steps-trans st (h w)) st'))

    pub Ensures-imp :
        (q q' : Outcome A) (m : Request W A) (d : Db)
        → ((r : Result Error A) (e : Db) → q r e → q' r e)
        → Ensures q m d
        → Ensures q' m d
    unfolding Ensures
    Ensures-imp q q' (stop r) d f h = f r d h
    Ensures-imp q q' (call X g k) d f h =
        λ w st. Ensures-imp q q' (k (g w).0) (view (g w).1) f (h w st)

    -- What no write makes false stays true to the end.
    pub Ensures-frame :
        (q : Outcome A) (j : Db → Type 0) (m : Request W A) (d : Db)
        → ((e f : Db) → Steps e f → j e → j f)
        → IsLawful m
        → j d
        → Ensures q m d
        → Ensures (λ r e. q r e × j e) m d
    unfolding Ensures IsLawful
    Ensures-frame q j (stop r) d kept l h g = (g, h)
    Ensures-frame q j (call X g k) d kept (l, ls) h good = λ w st.
        Ensures-frame q j (k (g w).0) (view (g w).1) kept (ls (g w).0)
          (kept d (view (g w).1) (Steps-trans st (l w)) h) (good w st)
