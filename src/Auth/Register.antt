-- ===== src/Auth/Register.antt =====
-- Registration.
use backend_infra_assessment.Base.{
  ◌≡◌, String, ok, is_ok, false, ◌∷◌, All, arith, subst, Any, refl, inl, inr, Result-cases,
  >>=-eq-ok, All-Any,
}
use backend_infra_assessment.Domain.{Time, User, role_viewer}
use backend_infra_assessment.Database.{Platform}
use backend_infra_assessment.Database.Contract.{Db}
use backend_infra_assessment.Hash.{hash_password}
use backend_infra_assessment.Jwt.{JwtLibrary}
use backend_infra_assessment.Auth.{AuthService, register, register_found, create_viewer, new_user}
use backend_infra_assessment.Auth.Contract.{IsBacked}

module _ {W : Type 0} (view : W → Db) (clock : W → Time) (p : Platform W) (lib : JwtLibrary)
    (s : AuthService W) (b : IsBacked view clock p s) where
  create_viewer_ok :
      (email password : String) (w : W) (u : User)
      → (create_viewer p lib s email password w).0 ≡ ok u
      → (view (create_viewer p lib s email password w).1
          ≡ record (view w) { users = u ∷ (view w).users })
        × (u.email ≡ email)
        × (u.role ≡ role_viewer)
        × ((p.generate_from_password password w).0 ≡ ok u.password_hash)
        × All (λ v. ¬ (v.email ≡ email)) (view w).users
  unfolding create_viewer
  create_viewer_ok email password w u h =
      let insert = λ (hash : String). s.users.create (new_user email hash role_viewer) in
      let (hash, hashed, created, same_world) = >>=-eq-ok (hash_password p password) insert w h in
      let w' = (p.generate_from_password password w).1 in
      let (stored, addr, same_hash, role, fresh) =
        b.users.create_ok (new_user email hash role_viewer) u w' created in
      let same = b.platform.generate_view password w in
      (
        ground arith,
        addr,
        role,
        ground arith,
        subst (λ d. All (λ v. ¬ (v.email ≡ email)) d.users) same
            (subst (λ a. All (λ v. ¬ (v.email ≡ a)) (view w').users) addr fresh),
      )

  create_viewer_err :
      (email password : String) (w : W)
      → is_ok (create_viewer p lib s email password w).0 ≡ false
      → view (create_viewer p lib s email password w).1 ≡ view w
  unfolding create_viewer
  create_viewer_err email password w h =
      let w' = (p.generate_from_password password w).1 in
      let same = b.platform.generate_view password w in
      elim (Result-cases (p.generate_from_password password w).0) [
        | inl (hash, e) ↦ ground (arith, e, b.users.create_err (new_user email hash role_viewer) w')
        | inr (x, e) ↦ ground (arith, e)
      ]

  -- A registration that succeeds has inserted one user: with the address that was asked for, which
  -- no user had, the viewer role, and the bcrypt hash of the password.
  pub register-ok :
      (email password : String) (w : W) (u : User)
      → (register p lib s email password w).0 ≡ ok u
      → (view (register p lib s email password w).1
          ≡ record (view w) { users = u ∷ (view w).users })
        × (u.email ≡ email)
        × (u.role ≡ role_viewer)
        × ((p.generate_from_password password (s.users.find_by_email email w).1).0
            ≡ ok u.password_hash)
        × All (λ v. ¬ (v.email ≡ email)) (view w).users
  unfolding register register_found
  register-ok email password w u h =
      let w' = (s.users.find_by_email email w).1 in
      let same = b.users.find_by_email_view email w in
      let (stored, addr, role, hashed, fresh) =
        create_viewer_ok email password w' u (ground arith) in
      (
        ground arith,
        addr,
        role,
        hashed,
        subst (λ d. All (λ v. ¬ (v.email ≡ email)) d.users) same fresh,
      )

  -- A registration that fails has changed no table.
  pub register-err :
      (email password : String) (w : W)
      → is_ok (register p lib s email password w).0 ≡ false
      → view (register p lib s email password w).1 ≡ view w
  unfolding register register_found
  register-err email password w h =
      let w' = (s.users.find_by_email email w).1 in
      ground (arith, b.users.find_by_email_view email w, create_viewer_err email password w')

  -- An address that a user has cannot be registered.
  pub register-taken :
      (email password : String) (w : W)
      → Any (λ v. v.email ≡ email) (view w).users
      → is_ok (register p lib s email password w).0 ≡ false
  register-taken email password w h = elim (Result-cases (register p lib s email password w).0) [
    | inl (u, e) ↦
        absurd (All-Any _ _ (view w).users (λ v f k. f k) (register-ok email password w u e).4 h)
    | inr (x, e) ↦ rw e refl
  ]
