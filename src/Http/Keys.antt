-- ===== src/Http/Keys.antt =====
-- The keys under which middleware keeps something for a user: a prefix, a text and the user's
-- identifier, with a colon before it.
use Prim.Native.Char.{Char}
use Prim.Native.String.{String, [], ◌∷◌}
use Prim.Native.String.append as append_lem
use backend_infra_assessment.Base.{◌≡◌, append, refl, subst}
use backend_infra_assessment.Domain.{Uuid}
use backend_infra_assessment.Database.{Platform}

abbrev pub colon : Char
colon = ":"

-- A text without a colon.
abbrev pub NoColon : String → Type 0
NoColon [] = Unit
NoColon (c ∷ s) = (¬ (c ≡ colon)) × NoColon s

append-cancel : (a x y : String) → append a x ≡ append a y → x ≡ y
append-cancel [] x y e = rw (append_lem.nil x, append_lem.nil y) at e
append-cancel (c ∷ a) x y e =
    let cons = rw (append_lem.cons c a x, append_lem.cons c a y) at e in
    append-cancel a x y (cc cons)

colon_later : (a x : String) → NoColon (append a (colon ∷ x)) → ⊥
colon_later [] x h = let k = subst NoColon (append_lem.nil (colon ∷ x)) h in k.0 refl
colon_later (c ∷ a) x h =
    let k = subst NoColon (append_lem.cons c a (colon ∷ x)) h in colon_later a x k.1

-- What stands before and after the last colon.
append-inj :
    (a b x y : String)
    → NoColon x
    → NoColon y
    → append a (colon ∷ x) ≡ append b (colon ∷ y)
    → (a ≡ b) × (x ≡ y)
append-inj [] [] x y n m e =
    let k : Path String (colon ∷ x) (colon ∷ y) =
      rw (append_lem.nil (colon ∷ x), append_lem.nil (colon ∷ y)) at e in
    (refl, cc k)
append-inj [] (d ∷ b) x y n m e =
    let k : Path String (colon ∷ x) (d ∷ append b (colon ∷ y)) =
      rw (append_lem.nil (colon ∷ x), append_lem.cons d b (colon ∷ y)) at e in
    let inside : x ≡ append b (colon ∷ y) = cc k in
    absurd (colon_later b y (subst NoColon inside n))
append-inj (c ∷ a) [] x y n m e =
    let k : Path String (c ∷ append a (colon ∷ x)) (colon ∷ y) =
      rw (append_lem.nil (colon ∷ y), append_lem.cons c a (colon ∷ x)) at e in
    let inside : y ≡ append a (colon ∷ x) = cc k in
    absurd (colon_later a x (subst NoColon inside m))
append-inj (c ∷ a) (d ∷ b) x y n m e =
    let cons = rw (append_lem.cons c a (colon ∷ x), append_lem.cons d b (colon ∷ y)) at e in
    let inside : append a (colon ∷ x) ≡ append b (colon ∷ y) = cc cons in
    let (same, tail) = append-inj a b x y n m inside in (cc (cons, same), tail)

-- google/uuid: an identifier is written without a colon, and no two alike.
pub record IsUuidText {W : Type 0} (p : Platform W) : Type 0 where
  pub no_colon : (u : Uuid) → NoColon (p.uuid_string u)
  pub unlike : (u v : Uuid) → p.uuid_string u ≡ p.uuid_string v → u ≡ v

-- Keys of one prefix have the same text and the same user.
pub user_key-inj :
    {W : Type 0} (p : Platform W)
    → IsUuidText p
    → (prefix path path' : String) (u v : Uuid)
    → append prefix (append path (append ":" (p.uuid_string u)))
      ≡ append prefix (append path' (append ":" (p.uuid_string v)))
    → (path ≡ path') × (u ≡ v)
user_key-inj p h prefix path path' u v e =
    let x = p.uuid_string u in
    let y = p.uuid_string v in
    let inside =
      append-cancel prefix (append path (append ":" x)) (append path' (append ":" y)) e in
    let whole =
      rw
        (append_lem.cons colon "" x, append_lem.nil x, append_lem.cons colon "" y, append_lem.nil y)
        at inside in
    let (same, text) = append-inj path path' x y (h.no_colon u) (h.no_colon v) whole in
    (same, h.unlike u v text)
