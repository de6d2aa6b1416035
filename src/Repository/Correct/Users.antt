-- ===== src/Repository/Correct/Users.antt =====
-- The users.
use mathlib.Core.Bool.{false≢true}
use backend_infra_assessment.Base.{
  ◌≡◌, String, Bool, none, ◌∷◌, ok, err, is_ok, true, false, All, ◌==◌, ==_iff, arith, str_eq,
  str_eq_iff, All-imp, sym, ◌∙◌, subst,
}
use backend_infra_assessment.Domain.Errors.{is_infrastructure, user_not_found}
use backend_infra_assessment.Domain.{Error, Time, User}
use backend_infra_assessment.Database.{Gorm, Platform}
use backend_infra_assessment.Database.Contract.{Db, stored_role, users_table, IsGorm, IsPlatform}
use backend_infra_assessment.Repository.{user_repository, new_id, create_user}
use backend_infra_assessment.Repository.Contract.{IsUserRepository}
use backend_infra_assessment.Repository.Correct.Ids.{new_id_lem, statement-error, lookup-error}

module _ {W : Type 0} (view : W → Db) (clock : W → Time) (p : Platform W)
    (ip : IsPlatform view clock p) (g : Gorm W User) (ig : IsGorm view clock users_table g) where
  create_user_ok :
      (u u' : User) (w : W)
      → (create_user p g u w).0 ≡ ok u'
      → (view (create_user p g u w).1 ≡ record (view w) { users = u' ∷ (view w).users })
        × (u'.email ≡ u.email)
        × (u'.password_hash ≡ u.password_hash)
        × (u'.role ≡ stored_role u.role)
        × All (λ v. ¬ (v.email ≡ u'.email)) (view w).users
  unfolding create_user
  create_user_ok u u' w h =
      let (n, ok_n, same, later) = new_id_lem view clock p ip u.id w in
      let w' = (new_id p u.id w).1 in
      let (stored, filled, fresh) =
        ig.create_ok (record u { id = n }) u' w' (ground (arith, ok_n)) in
      (
        ground (arith, ok_n),
        ground arith,
        ground arith,
        ground arith,
        subst (λ d. All (λ v. ¬ (v.email ≡ u'.email)) d.users) same fresh,
      )

  create_user_err :
      (u : User) (w : W)
      → is_ok (create_user p g u w).0 ≡ false
      → view (create_user p g u w).1 ≡ view w
  unfolding create_user
  create_user_err u w h =
      let (n, ok_n, same, later) = new_id_lem view clock p ip u.id w in
      ground (arith, ok_n, same, ig.create_err (record u { id = n }) (new_id p u.id w).1)

  create_user_error :
      (u : User) (e : Error) (w : W) → (create_user p g u w).0 ≡ err e → is_infrastructure e ≡ true
  unfolding create_user
  create_user_error u e w h =
      let (n, ok_n, same, later) = new_id_lem view clock p ip u.id w in
      statement-error (g.create (record u { id = n }) (new_id p u.id w).1).0 e
        (ground (arith, ok_n))

  by_email : String → User → Bool
  by_email email u = str_eq u.email email

  -- The user repository over a Gorm that behaves as documented.
  pub user_repository-IsUserRepository : IsUserRepository view clock (user_repository p g)
  unfolding user_repository by_email
  user_repository-IsUserRepository = record {
    create_ok = create_user_ok;
    create_error = create_user_error;
    find_by_email_error =
        λ email e w h. lookup-error user_not_found (g.first (by_email email) w).0 e h;
    find_by_id_error = λ id e w h. lookup-error user_not_found (g.first (λ u. u.id == id) w).0 e h;
    list_error = λ e w h. statement-error (g.find_latest (λ _. true) none w).0 e h;
    update_role_error = λ id role e w h.
        statement-error (g.update (λ u. u.id == id) (λ u. record u { role = role }) w).0 e h;
    create_err = create_user_err;
    find_by_email_ok = λ email u w h.
        let (q, m) = ig.first_ok (by_email email) u w (ground arith) in
        ((str_eq_iff u.email email).0 q, m);
    find_by_email_missing = λ email w h.
        All-imp _ _ (view w).users (λ u q e. false≢true (sym q ∙ (str_eq_iff u.email email).1 e))
          (ig.first_missing (by_email email) w (ground arith));
    find_by_email_clock = λ email w. ig.first_clock _ w;
    find_by_email_view = λ email w. ig.first_view _ w;
    find_by_id_ok = λ id u w h.
        let (q, m) = ig.first_ok (λ v. v.id == id) u w (ground arith) in ((==_iff u.id id).0 q, m);
    find_by_id_view = λ id w. ig.first_view _ w;
    list_view = λ w. ig.find_view _ _ w;
    update_role_ok = λ id role w h.
        (clock w, ground (arith, ig.update_ok (λ u. u.id == id) (λ u. record u { role = role }) w));
    update_role_err = λ id role w h.
        ground (arith, ig.update_err (λ u. u.id == id) (λ u. record u { role = role }) w);
  }
