-- ===== src/Jwt/Issued.antt =====
-- What ParseAccessToken makes of the tokens that GenerateAccessToken issues.
use backend_infra_assessment.Base.{
  ◌+◌, ◌*◌, ◌≡◌, ◌≤◌, ◌<◌, String, Bool, false, Result, ok, err, is_ok, arith, refl, ap, ◌∙◌, sym,
}
use backend_infra_assessment.Domain.{Uuid, Role, Time}
use backend_infra_assessment.Domain.Errors.{domain, unauthorized}
use backend_infra_assessment.Hash.{library}
use backend_infra_assessment.Database.{Platform}
use backend_infra_assessment.Database.Contract.{Db, IsPlatform}
use backend_infra_assessment.Jwt.{
  JwtLibrary, JwtService, Claims, other_method, signing_method_hs256, generate_access_token,
  parse_access_token, key_func, claims_for, accepted, numeric_date,
}
use backend_infra_assessment.Jwt.Contract.{IsJwtLibrary}

library_ok : {A : Type 0} (r : Result String A) (a : A) → library r ≡ ok a → r ≡ ok a
library_ok (ok b) a h = cc h
library_ok (err e) a h = cc h

accepted-refused :
    (r : Result String (Claims × Bool)) → is_ok r ≡ false → accepted r ≡ err (domain unauthorized)
accepted-refused (ok c) h = cc h
accepted-refused (err e) h = refl

module _ {W : Type 0} (view : W → Db) (clock : W → Time) (p : Platform W) (lib : JwtLibrary)
    (s : JwtService) (ip : IsPlatform view clock p) (il : IsJwtLibrary lib) where
  -- A token that was issued was signed at the time of the call.
  pub generate_access_token_ok :
      (id : Uuid) (role : Role) (token : String) (w : W)
      → (generate_access_token p lib s id role w).0 ≡ ok token
      → lib.signed_string signing_method_hs256 (claims_for p lib s id role (clock w)) s.secret
        ≡ ok token
  unfolding generate_access_token
  generate_access_token_ok id role token w h =
      let signed : Time → Result String String =
        λ now. lib.signed_string signing_method_hs256 (claims_for p lib s id role now) s.secret in
      library_ok (signed (clock w)) token
        (ap (λ now. library (signed now)) (sym (ip.time_now_lem w)) ∙ h)

  -- It is accepted, with the claims of its user, until a second before the lifetime is over.
  pub parse_access_token-generate :
      (id : Uuid) (role : Role) (token : String) (w w' : W)
      → (generate_access_token p lib s id role w).0 ≡ ok token
      → clock w' + 1000000000 ≤ clock w + s.access_ttl
      → parse_access_token p lib s token w'
        ≡ (ok (claims_for p lib s id role (clock w)), (p.time_now w').1)
  unfolding parse_access_token claims_for key_func
  parse_access_token-generate id role token w w' h k =
      let signed = generate_access_token_ok id role token w h in
      let live : clock w' < numeric_date (clock w + s.access_ttl) * 1000000000 = omega (arith, k) in
      let parsed =
        il.parse_signed signing_method_hs256 (claims_for p lib s id role (clock w)) s.secret token
          (clock w') (numeric_date (clock w + s.access_ttl)) (key_func s) signed refl refl live in
      rw (ip.time_now_lem w', parsed) refl

  -- From the end of the lifetime on it is refused.
  pub parse_access_token-expired :
      (id : Uuid) (role : Role) (token : String) (w w' : W)
      → (generate_access_token p lib s id role w).0 ≡ ok token
      → clock w + s.access_ttl ≤ clock w'
      → parse_access_token p lib s token w' ≡ (err (domain unauthorized), (p.time_now w').1)
  unfolding parse_access_token claims_for
  parse_access_token-expired id role token w w' h k =
      let signed = generate_access_token_ok id role token w h in
      let over : numeric_date (clock w + s.access_ttl) * 1000000000 ≤ clock w' = omega (arith, k) in
      let refused =
        il.parse_expired signing_method_hs256 (claims_for p lib s id role (clock w)) s.secret token
          (clock w') (numeric_date (clock w + s.access_ttl)) (key_func s) signed refl over in
      rw (ip.time_now_lem w', accepted-refused _ refused) refl

  -- A token of a method outside the HMAC family is refused, whatever it claims and however it was
  -- signed.
  pub parse_access_token-foreign :
      (alg : String) (claims : Claims) (key token : String) (w : W)
      → lib.signed_string (other_method alg) claims key ≡ ok token
      → parse_access_token p lib s token w ≡ (err (domain unauthorized), (p.time_now w).1)
  unfolding parse_access_token key_func
  parse_access_token-foreign alg claims key token w h =
      let refused =
        il.parse_unverifiable (other_method alg) claims key token "unexpected signing method"
          (p.time_now w).0 (key_func s) h refl in
      rw (accepted-refused _ refused) refl
