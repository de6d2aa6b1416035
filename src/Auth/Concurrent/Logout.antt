-- ===== src/Auth/Concurrent/Logout.antt =====
-- What a refresh and a logout ensure while other requests write between their statements.
use backend_infra_assessment.Base.{
  ◌≡◌, refl, sym, ◌∙◌, subst, ap, String, true, false, none, ok, err, is_ok, is_some, Option,
  Option-cases, Bool-cases, Any, All-Any, Has, Result-cases, inl, inr,
}
use backend_infra_assessment.Base.Programs.{◌>>=◌}
use backend_infra_assessment.Domain.{Time, RefreshToken, Error}
use backend_infra_assessment.Domain.Errors.{token_not_found, errors_is, errors_is-infrastructure}
use backend_infra_assessment.Hash.{sha256_hex}
use backend_infra_assessment.Database.{Platform}
use backend_infra_assessment.Database.Contract.{Db}
use backend_infra_assessment.Jwt.{JwtLibrary}
use backend_infra_assessment.Auth.{AuthService}
use backend_infra_assessment.Auth.Contract.{IsBacked}
use backend_infra_assessment.Auth.Sessions.{Call, refreshing, logging_out}
use backend_infra_assessment.Auth.Steps.{Steps, IsWellFormed, Steps-IsWellFormed}
use backend_infra_assessment.Auth.Steps.Spent.{
  IsDead, IsSpent, Steps-IsSpent, Steps-IsRow, Steps-hash, Has-IsRow, revoke-spends,
}
use backend_infra_assessment.Auth.Concurrent.{
  Reply, program, refresh_program, logout_program, logout_found_program,
}
use backend_infra_assessment.Auth.Concurrent.Rely.{Outcome, IsLawful, Ensures, Ensures-all}
use backend_infra_assessment.Auth.Concurrent.Lawful.{program-IsLawful}

-- A row that cannot be exchanged under its own hash is revoked.
dead-revoked :
    (hash : String) (t : RefreshToken)
    → IsDead hash t
    → t.token_hash ≡ hash
    → is_some t.revoked_at ≡ true
dead-revoked hash t (inl other) same = absurd (other same)
dead-revoked hash t (inr gone) same = gone

not_none : {A : Type 0} {x : Option A} → x ≡ none → ¬ (is_some x ≡ true)
not_none e h = cc (e, h)

module _ {W : Type 0} (view : W → Db) (clock : W → Time) (p : Platform W) (lib : JwtLibrary)
    (s : AuthService W) (b : IsBacked view clock p s) (hash : String) where
  -- A refresh with a token of this hash does not succeed.
  abbrev pub Refuses : Call → Outcome Reply
  Refuses (refreshing token) r d = sha256_hex p token ≡ hash → is_ok r ≡ false
  Refuses _ r d = Unit

  -- A logout with a token of this hash that succeeds leaves the hash spent.
  abbrev pub Ends : Call → Outcome Reply
  Ends (logging_out token) r d = sha256_hex p token ≡ hash → is_ok r ≡ true → IsSpent hash d
  Ends _ r d = Unit

  -- A token of this hash has been issued.
  pub record IsIssued (d : Db) : Type 0 where
    pub sound : IsWellFormed d
    pub row : Any (λ t. t.token_hash ≡ hash) d.tokens

  pub Steps-IsIssued : (d e : Db) → Steps d e → IsIssued d → IsIssued e
  Steps-IsIssued d e st i = record {
    sound = Steps-IsWellFormed st i.sound;
    row = Steps-hash hash st i.row;
  }

  stored_revoked :
      (rt : RefreshToken) (d : Db)
      → IsSpent hash d
      → Has rt d.tokens
      → rt.token_hash ≡ hash
      → is_some rt.revoked_at ≡ true
  stored_revoked rt d spent stored same =
      All-Any _ _ d.tokens
        (λ t dead is.
          subst (λ (x : RefreshToken). is_some x.revoked_at ≡ true) is
            (dead-revoked hash t dead (ap (λ (x : RefreshToken). x.token_hash) is ∙ same)))
        spent.dead stored

  pub program-Refuses :
      (c : Call) (d : Db) → IsSpent hash d → Ensures view (Refuses c) (program p lib s c) d
  unfolding program refresh_program Ensures IsLawful ◌>>=◌
  program-Refuses (refreshing token) d spent = λ w st.
      elim (Result-cases (s.tokens.find_by_hash (sha256_hex p token) w).0) [
        | inr (x, e) ↦ rw e (λ same. refl)
        | inl (rt, e) ↦ elim (Option-cases rt.revoked_at) [
          | inr (at, gone) ↦ rw (e, gone) (λ same. refl)
          | inl live ↦
              let (same_hash, stored) = b.tokens.find_by_hash_ok (sha256_hex p token) rt w e in
              Ensures-all view (Refuses (refreshing token)) _ _
                ((program-IsLawful view clock p lib s b (refreshing token)).1
                  (s.tokens.find_by_hash (sha256_hex p token) w).0)
                (λ r x later same. absurd (
                  not_none live (
                    stored_revoked rt (view w) (Steps-IsSpent hash st spent) stored
                      (same_hash ∙ same))))
        ]
      ]
  program-Refuses c d spent =
      Ensures-all view (Refuses c) (program p lib s c) d (program-IsLawful view clock p lib s b c)
        (λ r e st. tt)

  revoked_spent :
      (rt : RefreshToken) (w w' : W)
      → IsWellFormed (view w)
      → Has rt (view w).tokens
      → Steps (view w) (view w')
      → (s.tokens.revoke rt.id w').0 ≡ ok tt
      → IsSpent rt.token_hash (view (s.tokens.revoke rt.id w').1)
  revoked_spent rt w w' v stored st e =
      let (now, after) = b.tokens.revoke_ok rt.id w' e in
      subst (λ d. IsSpent rt.token_hash d) (sym after)
        (revoke-spends (view w') rt.id rt.token_hash now (Steps-IsWellFormed st v)
          (Steps-IsRow rt.id rt.token_hash st (Has-IsRow rt (view w).tokens stored)))

  not_missing :
      (token : String) (x : Error) (w : W)
      → IsIssued (view w)
      → sha256_hex p token ≡ hash
      → (s.tokens.find_by_hash (sha256_hex p token) w).0 ≡ err x
      → errors_is x token_not_found ≡ false
  not_missing token x w i same e = elim (b.tokens.find_by_hash_error (sha256_hex p token) x w e) [
    | inr broken ↦ errors_is-infrastructure x token_not_found broken
    | inl missing ↦ absurd (
        All-Any _ _ (view w).tokens (λ t other is. other (is ∙ sym same))
          (b.tokens.find_by_hash_missing (sha256_hex p token) w (e ∙ ap err missing)) i.row)
  ]

  pub program-Ends : (c : Call) (d : Db) → IsIssued d → Ensures view (Ends c) (program p lib s c) d
  unfolding program logout_program logout_found_program Ensures ◌>>=◌
  program-Ends (logging_out token) d i = λ w st.
      elim (Result-cases (s.tokens.find_by_hash (sha256_hex p token) w).0) [
        | inr (x, e) ↦ elim (Bool-cases (errors_is x token_not_found)) [
          | inr other ↦ rw (e, other) (λ same h. cc h)
          | inl missing ↦
              rw (e, missing)
                (λ same h.
                  cc (missing, not_missing token x w (Steps-IsIssued d (view w) st i) same e))
        ]
        | inl (rt, e) ↦
            let (same_hash, stored) = b.tokens.find_by_hash_ok (sha256_hex p token) rt w e in
            let kept = b.tokens.find_by_hash_view (sha256_hex p token) w in
            rw e (λ w' st'. elim (Result-cases (s.tokens.revoke rt.id w').0) [
              | inr (x, f) ↦ rw f (λ same h. cc h)
              | inl (_, f) ↦ rw f (λ same h.
                  subst (λ k. IsSpent k (view (s.tokens.revoke rt.id w').1)) (same_hash ∙ same)
                    (revoked_spent rt w w' (Steps-IsWellFormed st i.sound) stored
                      (subst (λ x. Steps x (view w')) kept st') f))
            ])
      ]
  program-Ends c d i =
      Ensures-all view (Ends c) (program p lib s c) d (program-IsLawful view clock p lib s b c)
        (λ r e st. tt)
