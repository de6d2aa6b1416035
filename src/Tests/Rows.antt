-- ===== src/Tests/Rows.antt =====
-- Rows in memory: the first that passes a test, and the latest of them.
use mathlib.Core.List.{Perm}
use mathlib.Core.List.Perm
use backend_infra_assessment.Base.{
  ◌++◌, ◌⊎◌, ap, sym, ℕ, zero, suc, ◌≤◌, ltb, NewestFirst, All-imp, length, ◌≡◌, Bool, true, false,
  Option, none, some, List, [], ◌∷◌, ok, err, All, Has, inl, inr, Result, keep, if◌then◌else◌,
  arith, refl, Bool-cases, subst, take,
}
use backend_infra_assessment.Domain.{Time}
use backend_infra_assessment.Database.{GormError, record_not_found}
use backend_infra_assessment.Database.Contract.{Within, Newest}

module _ {R : Type 0} where
  -- The first row that passes a test.
  unfoldable pub first_of_rows : (R → Bool) → List R → Result GormError R
  first_of_rows p [] = err record_not_found
  first_of_rows p (r ∷ rs) = if p r then ok r else first_of_rows p rs

  pub first_sound :
      (p : R → Bool) (rs : List R) (r : R) → first_of_rows p rs ≡ ok r → (p r ≡ true) × Has r rs
  unfolding first_of_rows
  first_sound p [] r h = cc
  first_sound p (x ∷ rs) r h = elim (Bool-cases (p x)) [
    | inl y ↦ let e : x ≡ r = ground (arith, y) in (ground (arith, y), inl e)
    | inr n ↦ let (q, m) = first_sound p rs r (rw n at h) in (q, inr m)
  ]

  pub first_none :
      (p : R → Bool) (rs : List R)
      → first_of_rows p rs ≡ err record_not_found
      → All (λ r. p r ≡ false) rs
  unfolding first_of_rows
  first_none p [] h = tt
  first_none p (x ∷ rs) h = elim (Bool-cases (p x)) [
    | inl y ↦ absurd (ground (arith, y))
    | inr n ↦ (n, first_none p rs (rw n at h))
  ]

-- A row among rows that are ordered, after those that are later.
abbrev pub placed : {R : Type 0} → (R → Time) → R → List R → List R
placed time r [] = r ∷ []
placed time r (x ∷ xs) =
    let rest = placed time r xs in if ltb (time r) (time x) then x ∷ rest else r ∷ x ∷ xs

unfoldable pub sorted : {R : Type 0} → (R → Time) → List R → List R
sorted time [] = []
sorted time (x ∷ xs) = placed time x (sorted time xs)

abbrev pub limited : {R : Type 0} → Option ℕ → List R → List R
limited none rs = rs
limited (some n) rs = take n rs

module _ {R : Type 0} (time : R → Time) where
  placed-All : (P : R → Type 0) (r : R) (xs : List R) → P r → All P xs → All P (placed time r xs)
  placed-All P r [] h hs = (h, tt)
  placed-All P r (x ∷ xs) h (k, ks) = elim (Bool-cases (ltb (time r) (time x))) [
    | inl y ↦ rw y (k, placed-All P r xs h ks)
    | inr n ↦ rw n (h, (k, ks))
  ]

  sorted-All : (P : R → Type 0) (xs : List R) → All P xs → All P (sorted time xs)
  unfolding sorted
  sorted-All P [] h = tt
  sorted-All P (x ∷ xs) (h, hs) = placed-All P x (sorted time xs) h (sorted-All P xs hs)

  placed-NewestFirst :
      (r : R) (xs : List R) → NewestFirst time xs → NewestFirst time (placed time r xs)
  placed-NewestFirst r [] h = (tt, tt)
  placed-NewestFirst r (x ∷ xs) (h, hs) = elim (Bool-cases (ltb (time r) (time x))) [
    | inl y ↦
        rw y
          (placed-All (λ z. time z ≤ time x) r xs (ground (arith, y)) h, placed-NewestFirst r xs hs)
    | inr n ↦
        let least : time x ≤ time r = ground (arith, n) in
        rw n
          ((least, All-imp (λ z. time z ≤ time x) _ xs (λ z k. omega (arith, k, least)) h), (h, hs))
  ]

  sorted-NewestFirst : (xs : List R) → NewestFirst time (sorted time xs)
  unfolding sorted
  sorted-NewestFirst [] = tt
  sorted-NewestFirst (x ∷ xs) = placed-NewestFirst x (sorted time xs) (sorted-NewestFirst xs)

  take-All : (P : R → Type 0) (n : ℕ) (xs : List R) → All P xs → All P (take n xs)
  take-All P zero xs h = tt
  take-All P (suc n) [] h = tt
  take-All P (suc n) (x ∷ xs) (h, hs) = (h, take-All P n xs hs)

  take-NewestFirst : (n : ℕ) (xs : List R) → NewestFirst time xs → NewestFirst time (take n xs)
  take-NewestFirst zero xs h = tt
  take-NewestFirst (suc n) [] h = tt
  take-NewestFirst (suc n) (x ∷ xs) (h, hs) = (take-All _ n xs h, take-NewestFirst n xs hs)

  length-take : (n : ℕ) (xs : List R) → length (take n xs) ≤ n
  length-take zero xs = omega arith
  length-take (suc n) [] = omega arith
  length-take (suc n) (x ∷ xs) = let k = length-take n xs in omega (arith, k)

  keep-All :
      (p : R → Bool) (rs all : List R)
      → ((r : R) → Has r rs → Has r all)
      → All (λ r. (p r ≡ true) × Has r all) (keep p rs)
  keep-All p [] all h = tt
  keep-All p (r ∷ rs) all h = elim (Bool-cases (p r)) [
    | inl y ↦ rw y ((y, h r (inl refl)), keep-All p rs all (λ x k. h x (inr k)))
    | inr n ↦ rw n (keep-All p rs all (λ x k. h x (inr k)))
  ]

  placed-Perm : (r : R) (xs : List R) → Perm (placed time r xs) (r ∷ xs)
  placed-Perm r [] = Perm.refl (r ∷ [])
  placed-Perm r (x ∷ xs) = elim (Bool-cases (ltb (time r) (time x))) [
    | inl y ↦ rw y (Perm.trans (Perm.cons x (placed-Perm r xs)) (Perm.swap r x xs))
    | inr n ↦ rw n (Perm.refl (r ∷ x ∷ xs))
  ]

  sorted-Perm : (xs : List R) → Perm (sorted time xs) xs
  unfolding sorted
  sorted-Perm [] = Perm.refl []
  sorted-Perm (x ∷ xs) = Perm.trans (placed-Perm x (sorted time xs)) (Perm.cons x (sorted-Perm xs))

  -- A list in two parts, of which the second is empty unless the first has the length asked for.
  take-rest :
      (n : ℕ) (xs : List R)
      → (rest : List R) × (take n xs ++ rest ≡ xs)
        × ((rest ≡ []) ⊎ (some n ≡ some (length (take n xs))))
  take-rest zero xs = (xs, refl, inr refl)
  take-rest (suc n) [] = ([], refl, inl refl)
  take-rest (suc n) (x ∷ xs) =
      let (rest, whole, ends) = take-rest n xs in
      (rest, ap (λ ys. x ∷ ys) whole, elim ends [ inl e ↦ inl e | inr e ↦ inr (cc e) ])

  ++-empty : (xs : List R) → xs ++ [] ≡ xs
  ++-empty [] = refl
  ++-empty (x ∷ xs) = ap (λ ys. x ∷ ys) (++-empty xs)

  limited-Newest : (n : Option ℕ) (xs : List R) → Newest time n xs (limited n (sorted time xs))
  limited-Newest none xs =
      let whole = sym (++-empty (sorted time xs)) in
      (
        [],
        subst (λ ys. Perm ys xs) whole (sorted-Perm xs),
        subst (λ ys. NewestFirst time ys) whole (sorted-NewestFirst xs),
        inl refl,
      )
  limited-Newest (some n) xs =
      let (rest, whole, ends) = take-rest n (sorted time xs) in
      (
        rest,
        subst (λ ys. Perm ys xs) (sym whole) (sorted-Perm xs),
        subst (λ ys. NewestFirst time ys) (sym whole) (sorted-NewestFirst xs),
        ends,
      )

  pub found_rows :
      (p : R → Bool) (n : Option ℕ) (all rs : List R)
      → limited n (sorted time (keep p all)) ≡ rs
      → NewestFirst time rs
        × All (λ r. (p r ≡ true) × Has r all) rs
        × Within n rs
        × Newest time n (keep p all) rs
  found_rows p none all rs h =
      let P : R → Type 0 = λ r. (p r ≡ true) × Has r all in
      let xs = sorted time (keep p all) in
      subst
        (λ ys. NewestFirst time ys × All P ys × Within none ys × Newest time none (keep p all) ys) h
        (
          sorted-NewestFirst (keep p all),
          sorted-All P (keep p all) (keep-All p all all (λ r k. k)),
          tt,
          limited-Newest none (keep p all),
        )
  found_rows p (some n) all rs h =
      let P : R → Type 0 = λ r. (p r ≡ true) × Has r all in
      let xs = sorted time (keep p all) in
      subst
        (λ ys.
          NewestFirst time ys
          × All P ys
          × Within (some n) ys
          × Newest time (some n) (keep p all) ys)
        h
        (
          take-NewestFirst n xs (sorted-NewestFirst (keep p all)),
          take-All P n xs (sorted-All P (keep p all) (keep-All p all all (λ r k. k))),
          λ k. length-take n xs,
          limited-Newest (some n) (keep p all),
        )
