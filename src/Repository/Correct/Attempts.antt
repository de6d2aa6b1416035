-- ===== src/Repository/Correct/Attempts.antt =====
-- The login attempts.
use backend_infra_assessment.Base.{
  some, All-imp, str_eq, str_eq_iff, ◌≤◌, ◌≡◌, ◌∷◌, ok, is_ok, false, arith,
}
use backend_infra_assessment.Domain.{Time, LoginAttempt}
use backend_infra_assessment.Database.{Gorm, Platform}
use backend_infra_assessment.Database.Contract.{Db, attempts_table, IsGorm, IsPlatform}
use backend_infra_assessment.Repository.{
  is_recent_failure, login_attempt_repository, new_id, create_attempt,
}
use backend_infra_assessment.Repository.Contract.{IsAttemptRepository}
use backend_infra_assessment.Repository.Correct.Ids.{new_id_lem, statement-error}

module _ {W : Type 0} (view : W → Db) (clock : W → Time) (p : Platform W)
    (ip : IsPlatform view clock p) (g : Gorm W LoginAttempt)
    (ig : IsGorm view clock attempts_table g) where
  create_attempt_ok :
      (a a' : LoginAttempt) (w : W)
      → (create_attempt p g a w).0 ≡ ok a'
      → (view (create_attempt p g a w).1 ≡ record (view w) { attempts = a' ∷ (view w).attempts })
        × (a'.email ≡ a.email)
        × (a'.ip_address ≡ a.ip_address)
        × (a'.successful ≡ a.successful)
        × (a.created_at ≡ 0 → clock w ≤ a'.created_at)
  unfolding create_attempt
  create_attempt_ok a a' w h =
      let (n, ok_n, same, later) = new_id_lem view clock p ip a.id w in
      let w' = (new_id p a.id w).1 in
      let (stored, filled, fresh) =
        ig.create_ok (record a { id = n }) a' w' (ground (arith, ok_n)) in
      (ground (arith, ok_n), ground arith, ground arith, ground arith, λ z. ground arith)

  create_attempt_err :
      (a : LoginAttempt) (w : W)
      → is_ok (create_attempt p g a w).0 ≡ false
      → view (create_attempt p g a w).1 ≡ view w
  unfolding create_attempt
  create_attempt_err a w h =
      let (n, ok_n, same, later) = new_id_lem view clock p ip a.id w in
      ground (arith, ok_n, same, ig.create_err (record a { id = n }) (new_id p a.id w).1)

  create_attempt_clock : (a : LoginAttempt) (w : W) → clock w ≤ clock (create_attempt p g a w).1
  unfolding create_attempt
  create_attempt_clock a w =
      let (n, ok_n, same, later) = new_id_lem view clock p ip a.id w in
      ground (arith, ok_n, later, ig.create_clock (record a { id = n }) (new_id p a.id w).1)

  pub login_attempt_repository-IsAttemptRepository :
      IsAttemptRepository view clock (login_attempt_repository p g)
  unfolding login_attempt_repository
  login_attempt_repository-IsAttemptRepository = record {
    create_ok = create_attempt_ok;
    create_err = create_attempt_err;
    create_clock = create_attempt_clock;
    count_clock = λ email since w. ig.count_clock _ w;
    count_error =
        λ email since e w h. statement-error (g.count (is_recent_failure email since) w).0 e h;
    count_ok = λ email since n w h. ig.count_ok (is_recent_failure email since) n w (ground arith);
    count_view = λ email since w. ig.count_view _ w;
    list_ok = λ email limit rows w h.
        let (order, found, within, newest) =
          ig.find_ok (λ a. str_eq a.email email) (some limit) rows w (ground arith) in
        (
          order,
          All-imp _ _ rows (λ a k. (ground (arith, k.0, str_eq_iff a.email email), k.1)) found,
          within,
          newest,
        );
    list_view = λ email limit w. ig.find_view _ _ w;
  }
