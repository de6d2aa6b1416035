-- ===== src/Base/Lists.antt =====
-- Lists measured by native numbers, and predicates over their items.
use Prim.Native.Nat.{ℕ, zero, suc, ◌+◌, ◌≤◌}
use mathlib.Core.Path.{◌≡◌, subst, sym}
use mathlib.Core.Logic.{◌⊎◌, inl, inr}
use mathlib.Core.Bool.{Bool}
use mathlib.Core.List.{List, [], ◌∷◌, Memᴰ}
use backend_infra_assessment.Base.Tests.{if◌then◌else◌}

module _ {ℓ} {A : Type ℓ} where
  abbrev pub length : List A → ℕ
  length [] = 0
  length (x ∷ xs) = suc (length xs)

  abbrev pub take : ℕ → List A → List A
  take zero xs = []
  take (suc n) [] = []
  take (suc n) (x ∷ xs) = x ∷ take n xs

  -- The number of items that pass a test.
  abbrev pub count : (A → Bool) → List A → ℕ
  count p [] = 0
  count p (x ∷ xs) = (if p x then 1 else 0) + count p xs

  -- The items that pass a test, in order.
  abbrev pub keep : (A → Bool) → List A → List A
  keep p [] = []
  keep p (x ∷ xs) = if p x then x ∷ keep p xs else keep p xs

  -- Every item that passes a test is changed.
  abbrev pub change : (A → Bool) → (A → A) → List A → List A
  change p f [] = []
  change p f (x ∷ xs) = (if p x then f x else x) ∷ change p f xs

-- A statement about every item.
module _ {ℓ κ} {A : Type ℓ} where
  abbrev pub All : (A → Type κ) → List A → Type κ
  All P [] = Unit
  All P (x ∷ xs) = P x × All P xs

  pub All-imp : (P Q : A → Type κ) (xs : List A) → ((x : A) → P x → Q x) → All P xs → All Q xs
  All-imp P Q [] f h = tt
  All-imp P Q (x ∷ xs) f (h, hs) = (f x h, All-imp P Q xs f hs)

  pub All-every : (P : A → Type κ) (xs : List A) → ((x : A) → P x) → All P xs
  All-every P [] f = tt
  All-every P (x ∷ xs) f = (f x, All-every P xs f)

pub All-Mem {ℓ κ} : {A : Type ℓ} (P : A → Type κ) (x : A) (xs : List A) → All P xs → Memᴰ x xs → P x
All-Mem P x [] h m = elim m [ ]
All-Mem P x (y ∷ xs) (h, hs) (Memᴰ.head e) = subst P (sym e) h
All-Mem P x (y ∷ xs) (h, hs) (Memᴰ.tail m) = All-Mem P x xs hs m

-- Ordered by a time, the latest first.
abbrev pub NewestFirst {ℓ} : {A : Type ℓ} → (A → ℕ) → List A → Type 0
NewestFirst time [] = Unit
NewestFirst time (x ∷ xs) = All (λ y. time y ≤ time x) xs × NewestFirst time xs

-- A statement about some item, which the proof names.
module _ {ℓ} {A : Type ℓ} where
  abbrev pub Any : (A → Type 0) → List A → Type 0
  Any P [] = ⊥
  Any P (x ∷ xs) = P x ⊎ Any P xs

  pub All-Any :
      {C : Type 0} (P Q : A → Type 0) (xs : List A)
      → ((x : A) → P x → Q x → C)
      → All P xs
      → Any Q xs
      → C
  All-Any P Q [] f h k = absurd k
  All-Any P Q (x ∷ xs) f (h, hs) (inl k) = f x h k
  All-Any P Q (x ∷ xs) f (h, hs) (inr k) = All-Any P Q xs f hs k

  pub Any-imp : (P Q : A → Type 0) (xs : List A) → ((x : A) → P x → Q x) → Any P xs → Any Q xs
  Any-imp P Q [] f h = absurd h
  Any-imp P Q (x ∷ xs) f (inl h) = inl (f x h)
  Any-imp P Q (x ∷ xs) f (inr h) = inr (Any-imp P Q xs f h)

-- Membership, and lists in which no two items share a key.
module _ {A : Type 0} where
  abbrev pub Has : A → List A → Type 0
  Has a xs = Any (λ x. x ≡ a) xs

  abbrev pub Unique : {K : Type 0} → (A → K) → List A → Type 0
  Unique key [] = Unit
  Unique key (x ∷ xs) = All (λ y. ¬ (key y ≡ key x)) xs × Unique key xs
