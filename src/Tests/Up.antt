-- ===== src/Tests/Up.antt =====
-- The database in memory always answers.
use backend_infra_assessment.Base.{
  ◌≡◌, refl, ap, ◌∙◌, inl, inr, Bool, true, false, List, [], ◌∷◌, All, Any, Has, is_ok, str_eq,
  str_eq_iff, ◌==◌, ==_iff, ◌↔◌, Bool-cases, arith,
}
use backend_infra_assessment.Domain.{RefreshToken, uuid_nil}
use backend_infra_assessment.Database.Contract.{Table, tokens_table}
use backend_infra_assessment.Repository.{
  user_repository, token_repository, login_attempt_repository,
}
use backend_infra_assessment.Auth.Backends.{IsUp}
use backend_infra_assessment.Tests.Memory.{
  Memory, db_of, memory_gorm, memory_platform, first_of_rows, occurs, create_row,
}
use backend_infra_assessment.Tests.Service.{service}
use backend_infra_assessment.Tests.Signing.{signing}

first_found :
    {R : Type 0} (p : R → Bool) (rs : List R) (r : R)
    → Has r rs
    → p r ≡ true
    → is_ok (first_of_rows p rs) ≡ true
unfolding first_of_rows
first_found p [] r h k = absurd h
first_found p (x ∷ rs) r (inl h) k = rw (ap p h ∙ k) refl
first_found p (x ∷ rs) r (inr h) k = elim (Bool-cases (p x)) [
  | inl y ↦ rw y refl
  | inr n ↦ rw n (first_found p rs r h k)
]

not-occurs :
    {R K : Type 0} (t : Table R K) (same : K → K → Bool)
    → ((a b : K) → (same a b ≡ true) ↔ (a ≡ b))
    → (k : K) (rs : List R) → All (λ r. ¬ (t.key r ≡ k)) rs
    → occurs t same k rs ≡ false
unfolding occurs
not-occurs t same sound k [] h = refl
not-occurs t same sound k (r ∷ rs) (h, hs) = elim (Bool-cases (same (t.key r) k)) [
  | inl y ↦ absurd (h ((sound (t.key r) k).0 y))
  | inr n ↦ rw n (not-occurs t same sound k rs hs)
]

creates :
    (t : RefreshToken) (w : Memory)
    → All (λ r. ¬ (r.token_hash ≡ t.token_hash)) w.db.tokens
    → Any (λ u. u.id ≡ t.user_id) w.db.users
    → is_ok (service.tokens.create t w).0 ≡ true
unfolding token_repository memory_gorm memory_platform create_row
creates t w h owned =
    let free = not-occurs tokens_table str_eq str_eq_iff t.token_hash w.db.tokens h in
    elim (Bool-cases (t.id == uuid_nil)) [ inl y ↦ rw (y, free) refl | inr n ↦ rw (n, free) refl ]

pub service-IsUp : IsUp db_of memory_platform signing service
unfolding user_repository token_repository login_attempt_repository memory_gorm memory_platform
service-IsUp = record {
  counts = λ email since w. refl;
  finds_email = λ u w h.
      let k =
        first_found (λ v. str_eq v.email u.email) w.db.users u h
          ((str_eq_iff u.email u.email).1 refl) in
      ground (arith, k);
  finds_id = λ u w h.
      let k = first_found (λ v. v.id == u.id) w.db.users u h ((==_iff u.id u.id).1 refl) in
      ground (arith, k);
  finds_hash = λ t w h.
      let k =
        first_found (λ v. str_eq v.token_hash t.token_hash) w.db.tokens t h
          ((str_eq_iff t.token_hash t.token_hash).1 refl) in
      ground (arith, k);
  revokes = λ id w. refl;
  creates = creates;
  signs = λ claims. refl;
  reads = λ n w. refl;
}
