-- ===== src/Auth/Backends.antt =====
-- The backends of the service while they answer, and the tokens that are issued then.
use backend_infra_assessment.Base.{
  ℕ, ◌+◌, ◌≡◌, inl, inr, String, true, List, [], ◌∷◌, Result, ok, err, is_ok, Has, Any, All, Unique,
  All-Any, arith, subst, refl, sym, ap, ◌∙◌,
}
use backend_infra_assessment.Domain.{Uuid, Time, User, RefreshToken}
use backend_infra_assessment.Hash.{sha256_hex}
use backend_infra_assessment.Database.{Platform}
use backend_infra_assessment.Database.Contract.{Db}
use backend_infra_assessment.Jwt.{
  JwtLibrary, Claims, generate_access_token, generate_refresh_token, claims_for,
  signing_method_hs256,
}
use backend_infra_assessment.Auth.{AuthService, TokenPair, issue_tokens, store_pair, new_token}
use backend_infra_assessment.Auth.Contract.{IsBacked}

-- The backends answer: a row that is there is found, a statement that may be run is, and the
-- libraries sign and draw. A token may be inserted where its hash is new and its user is stored.
pub record IsUp {W : Type 0} (view : W → Db) (p : Platform W) (lib : JwtLibrary) (s : AuthService W)
    : Type 0 where
  pub counts :
      (email : String) (since : Time) (w : W)
      → is_ok (s.attempts.count_recent_failed email since w).0 ≡ true
  pub finds_email :
      (u : User) (w : W) → Has u (view w).users → is_ok (s.users.find_by_email u.email w).0 ≡ true
  pub finds_id :
      (u : User) (w : W) → Has u (view w).users → is_ok (s.users.find_by_id u.id w).0 ≡ true
  pub finds_hash :
      (t : RefreshToken) (w : W)
      → Has t (view w).tokens
      → is_ok (s.tokens.find_by_hash t.token_hash w).0 ≡ true
  pub revokes : (id : Uuid) (w : W) → is_ok (s.tokens.revoke id w).0 ≡ true
  pub creates :
      (t : RefreshToken) (w : W)
      → All (λ r. ¬ (r.token_hash ≡ t.token_hash)) (view w).tokens
      → Any (λ u. u.id ≡ t.user_id) (view w).users
      → is_ok (s.tokens.create t w).0 ≡ true
  pub signs :
      (claims : Claims) → is_ok (lib.signed_string signing_method_hs256 claims s.jwt.secret) ≡ true
  pub reads : (n : ℕ) (w : W) → is_ok (p.rand_read n w).0 ≡ true

pub Result-ok : {E A : Type 0} (r : Result E A) → is_ok r ≡ true → (a : A) × (r ≡ ok a)
Result-ok (ok a) h = (a, refl)
Result-ok (err e) h = cc h

-- A row that is there is some row of which a statement holds.
Has-Any : {A : Type 0} (P : A → Type 0) (x : A) (rows : List A) → P x → Has x rows → Any P rows
Has-Any P x [] h k = absurd k
Has-Any P x (y ∷ rows) h (inl e) = inl (subst P (sym e) h)
Has-Any P x (y ∷ rows) h (inr k) = inr (Has-Any P x rows h k)

-- Rows of one key are one row.
pub Unique-one :
    {A K : Type 0} (key : A → K) (rows : List A) (a b : A)
    → Unique key rows
    → Has a rows
    → Has b rows
    → key a ≡ key b
    → a ≡ b
Unique-one key [] a b u h k e = absurd h
Unique-one key (x ∷ xs) a b (u, us) (inl h) (inl k) e = sym h ∙ k
Unique-one key (x ∷ xs) a b (u, us) (inl h) (inr k) e =
    absurd (All-Any _ _ xs (λ y d same. d (ap key same ∙ sym e ∙ ap key (sym h))) u k)
Unique-one key (x ∷ xs) a b (u, us) (inr h) (inl k) e =
    absurd (All-Any _ _ xs (λ y d same. d (ap key same ∙ e ∙ ap key (sym k))) u h)
Unique-one key (x ∷ xs) a b (u, us) (inr h) (inr k) e = Unique-one key xs a b us h k e

module _ {W : Type 0} (view : W → Db) (clock : W → Time) (p : Platform W) (lib : JwtLibrary)
    (s : AuthService W) (b : IsBacked view clock p s) (up : IsUp view p lib s) where
  -- The refresh token that is drawn when tokens are issued in a world is new to the table.
  abbrev pub DrawsFresh : W → Type 0
  DrawsFresh w =
      (token : String)
      → (generate_refresh_token p lib s.jwt (p.time_now w).1).0 ≡ ok token
      → All (λ r. ¬ (r.token_hash ≡ sha256_hex p token)) (view w).tokens

  access_works :
      (user : User) (w : W)
      → (access : String) × (generate_access_token p lib s.jwt user.id user.role w
          ≡ (ok access, (p.time_now w).1))
  unfolding generate_access_token
  access_works user w =
      let claims = claims_for p lib s.jwt user.id user.role (p.time_now w).0 in
      let (access, e) =
        Result-ok (lib.signed_string signing_method_hs256 claims s.jwt.secret) (up.signs claims) in
      (access, rw e refl)

  draw_works : (w : W) → (token : String) × ((generate_refresh_token p lib s.jwt w).0 ≡ ok token)
  unfolding generate_refresh_token
  draw_works w =
      let (bytes, e) = Result-ok (p.rand_read 32 w).0 (up.reads 32 w) in
      (p.base64_raw_url bytes, rw e refl)

  drawn_view : (w : W) → view (generate_refresh_token p lib s.jwt w).1 ≡ view w
  unfolding generate_refresh_token
  drawn_view w = ground (arith, b.platform.rand_view 32 w)

  store_works :
      (user : User) (access token : String) (w : W)
      → All (λ r. ¬ (r.token_hash ≡ sha256_hex p token)) (view w).tokens
      → Has user (view w).users
      → (store_pair p lib s user access token w).0
        ≡ ok (record { access_token = access; refresh_token = token })
  unfolding store_pair
  store_works user access token w fresh known =
      let w' = (p.time_now w).1 in
      let row = new_token user.id (sha256_hex p token) ((p.time_now w).0 + s.jwt.refresh_ttl) in
      let still =
        subst (λ d. All (λ r. ¬ (r.token_hash ≡ sha256_hex p token)) d.tokens)
          (sym (b.platform.time_view w)) fresh in
      let owned =
        Has-Any (λ (u : User). u.id ≡ user.id) user (view w').users refl
          (subst (λ d. Has user d.users) (sym (b.platform.time_view w)) known) in
      let (t, e) = Result-ok (s.tokens.create row w').0 (up.creates row w' still owned) in rw e refl

  pub issue_works :
      (user : User) (w : W)
      → DrawsFresh w
      → Has user (view w).users
      → (pair : TokenPair) × ((issue_tokens p lib s user w).0 ≡ ok pair)
  unfolding issue_tokens
  issue_works user w fresh known =
      let w' = (p.time_now w).1 in
      let (access, a) = access_works user w in
      let (token, r) = draw_works w' in
      let w'' = (generate_refresh_token p lib s.jwt w').1 in
      let here = sym (drawn_view w' ∙ b.platform.time_view w) in
      let still =
        subst (λ d. All (λ r. ¬ (r.token_hash ≡ sha256_hex p token)) d.tokens) here
          (fresh token r) in
      (
        record { access_token = access; refresh_token = token },
        rw (a, r)
            (store_works user access token w'' still (subst (λ d. Has user d.users) here known)),
      )
