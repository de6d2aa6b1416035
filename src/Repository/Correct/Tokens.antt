-- ===== src/Repository/Correct/Tokens.antt =====
-- The refresh tokens.
use mathlib.Core.Bool.{false≢true}
use backend_infra_assessment.Base.{
  ◌≡◌, ◌≤◌, String, Bool, some, ◌∷◌, ok, err, is_ok, true, false, All, ◌==◌, arith, str_eq,
  str_eq_iff, All-imp, sym, ◌∙◌, subst,
}
use backend_infra_assessment.Domain.Errors.{is_infrastructure, token_not_found}
use backend_infra_assessment.Domain.{Error, Time, RefreshToken}
use backend_infra_assessment.Database.{Gorm, Platform}
use backend_infra_assessment.Database.Contract.{Db, tokens_table, IsGorm, IsPlatform}
use backend_infra_assessment.Repository.{token_repository, new_id, create_token}
use backend_infra_assessment.Repository.Contract.{IsTokenRepository}
use backend_infra_assessment.Repository.Correct.Ids.{new_id_lem, statement-error, lookup-error}

module _ {W : Type 0} (view : W → Db) (clock : W → Time) (p : Platform W)
    (ip : IsPlatform view clock p) (g : Gorm W RefreshToken)
    (ig : IsGorm view clock tokens_table g) where
  create_token_ok :
      (t t' : RefreshToken) (w : W)
      → (create_token p g t w).0 ≡ ok t'
      → (view (create_token p g t w).1 ≡ record (view w) { tokens = t' ∷ (view w).tokens })
        × (t'.user_id ≡ t.user_id)
        × (t'.token_hash ≡ t.token_hash)
        × (t'.expires_at ≡ t.expires_at)
        × (t'.revoked_at ≡ t.revoked_at)
        × All (λ s. ¬ (s.token_hash ≡ t'.token_hash)) (view w).tokens
  unfolding create_token
  create_token_ok t t' w h =
      let (n, ok_n, same, later) = new_id_lem view clock p ip t.id w in
      let w' = (new_id p t.id w).1 in
      let (stored, filled, fresh) =
        ig.create_ok (record t { id = n }) t' w' (ground (arith, ok_n)) in
      (
        ground (arith, ok_n),
        ground arith,
        ground arith,
        ground arith,
        ground arith,
        subst (λ d. All (λ s. ¬ (s.token_hash ≡ t'.token_hash)) d.tokens) same fresh,
      )

  create_token_err :
      (t : RefreshToken) (w : W)
      → is_ok (create_token p g t w).0 ≡ false
      → view (create_token p g t w).1 ≡ view w
  unfolding create_token
  create_token_err t w h =
      let (n, ok_n, same, later) = new_id_lem view clock p ip t.id w in
      ground (arith, ok_n, same, ig.create_err (record t { id = n }) (new_id p t.id w).1)

  create_token_clock : (t : RefreshToken) (w : W) → clock w ≤ clock (create_token p g t w).1
  unfolding create_token
  create_token_clock t w =
      let (n, ok_n, same, later) = new_id_lem view clock p ip t.id w in
      ground (arith, ok_n, later, ig.create_clock (record t { id = n }) (new_id p t.id w).1)

  create_token_error :
      (t : RefreshToken) (e : Error) (w : W)
      → (create_token p g t w).0 ≡ err e
      → is_infrastructure e ≡ true
  unfolding create_token
  create_token_error t e w h =
      let (n, ok_n, same, later) = new_id_lem view clock p ip t.id w in
      statement-error (g.create (record t { id = n }) (new_id p t.id w).1).0 e
        (ground (arith, ok_n))

  by_hash : String → RefreshToken → Bool
  by_hash hash t = str_eq t.token_hash hash

  -- The token repository over a Gorm that behaves as documented.
  pub token_repository-IsTokenRepository : IsTokenRepository view clock (token_repository p g)
  unfolding token_repository by_hash
  token_repository-IsTokenRepository = record {
    create_ok = create_token_ok;
    create_error = create_token_error;
    find_by_hash_error =
        λ hash e w h. lookup-error token_not_found (g.first (by_hash hash) w).0 e h;
    revoke_error = λ id e w h.
        statement-error
          (g.update (λ t. t.id == id) (λ t. record t { revoked_at = some (p.time_now w).0 })
            (p.time_now w).1).0
          e h;
    create_err = create_token_err;
    create_clock = create_token_clock;
    find_by_hash_ok = λ hash t w h.
        let (q, m) = ig.first_ok (by_hash hash) t w (ground arith) in
        ((str_eq_iff t.token_hash hash).0 q, m);
    find_by_hash_missing = λ hash w h.
        All-imp _ _ (view w).tokens
          (λ t q e. false≢true (sym q ∙ (str_eq_iff t.token_hash hash).1 e))
          (ig.first_missing (by_hash hash) w (ground arith));
    find_by_hash_view = λ hash w. ig.first_view _ w;
    revoke_ok = λ id w h. (
      (p.time_now w).0,
      ground (
        arith,
        ip.time_view w,
        ig.update_ok (λ t. t.id == id) (λ t. record t { revoked_at = some (p.time_now w).0 })
            (p.time_now w).1,
      ),
    );
    revoke_err = λ id w h. ground (
      arith,
      ip.time_view w,
      ig.update_err (λ t. t.id == id) (λ t. record t { revoked_at = some (p.time_now w).0 })
          (p.time_now w).1,
    );
  }
