-- ===== src/Tests/Signing.antt =====
-- A signing library in memory: a token spells its method, its claims and its key.
use Prim.Native.Char.{Char, code}
use Prim.Native.String.{String, [] as end, ◌∷◌ as then_char}
use backend_infra_assessment.Base.{
  ℕ, zero, suc, ◌*◌, ◌≡◌, ◌≤◌, refl, sym, ap, ◌∙◌, Bool, true, false, Option, none, some, Result,
  ok, err, is_ok, ltb, ◌==◌, str_eq, str_eq_iff, if◌then◌else◌, arith,
}
use backend_infra_assessment.Domain.{Time}
use backend_infra_assessment.Jwt.{JwtLibrary, SigningMethod, hmac, other_method, Claims}
use backend_infra_assessment.Jwt.Contract.{IsJwtLibrary}
use backend_infra_assessment.Tests.Memory.{tally, untally, untally-tally}

abbrev last : Char
last = "0"

abbrev more : Char
more = "1"

-- A first text, marked character by character, before a second.
unfoldable pub joined : String → String → String
joined end t = then_char last t
joined (then_char c s) t = then_char more (then_char c (joined s t))

abbrev longer : Char → Option (String × String) → Option (String × String)
longer c none = none
longer c (some (s, t)) = some (then_char c s, t)

unfoldable pub parted : String → Option (String × String)
parted end = none
parted (then_char m end) = if code m == 48 then some (end, end) else none
parted (then_char m (then_char c s)) =
    let rest = parted s in if code m == 48 then some (end, then_char c s) else longer c rest

parted-joined : (s t : String) → parted (joined s t) ≡ some (s, t)
unfolding parted joined
parted-joined end end = refl
parted-joined end (then_char c t) = refl
parted-joined (then_char c s) t = ap (longer c) (parted-joined s t)

abbrev method_text : SigningMethod → String
method_text (hmac n) = then_char more (tally n)
method_text (other_method alg) = then_char last alg

abbrev method_of : String → SigningMethod
method_of end = other_method end
method_of (then_char m s) = if code m == 49 then hmac (untally s) else other_method s

method_of-text : (m : SigningMethod) → method_of (method_text m) ≡ m
method_of-text (hmac n) = ap hmac (untally-tally n)
method_of-text (other_method alg) = refl

abbrev date_number : Option ℕ → ℕ
date_number none = zero
date_number (some n) = suc n

abbrev date_of : ℕ → Option ℕ
date_of zero = none
date_of (suc n) = some n

date_of-number : (d : Option ℕ) → date_of (untally (tally (date_number d))) ≡ d
date_of-number none = ap date_of (untally-tally 0)
date_of-number (some n) = ap date_of (untally-tally (suc n))

unfoldable pub signed_text : SigningMethod → Claims → String → String
signed_text m c key = joined (method_text m) (
    joined c.user_id (
      joined c.role
        (joined (tally (date_number c.issued_at)) (joined (tally (date_number c.expires_at)) key))))

abbrev pub Signed : Type 0
Signed = SigningMethod × Claims × String

abbrev then_part : {A : Type 0} → Option (String × String) → (String → String → Option A) → Option A
then_part none f = none
then_part (some (s, t)) f = f s t

unfoldable pub signed_parts : String → Option Signed
signed_parts token = then_part (parted token) λ m rest1. then_part (parted rest1) λ user_id rest2.
    then_part (parted rest2) λ role rest3. then_part (parted rest3) λ iat rest4.
      then_part (parted rest4) λ exp key. some (
        method_of m,
        record {
          user_id = user_id;
          role = role;
          issued_at = date_of (untally iat);
          expires_at = date_of (untally exp);
        },
        key,
      )

signed_parts-text :
    (m : SigningMethod) (c : Claims) (key : String)
    → signed_parts (signed_text m c key) ≡ some (m, c, key)
unfolding signed_parts signed_text
signed_parts-text m c key =
    rw
      (
        parted-joined,
        parted-joined,
        parted-joined,
        parted-joined,
        parted-joined,
        method_of-text m,
        date_of-number c.issued_at,
        date_of-number c.expires_at,
      )
      refl

abbrev unless_expired : Time → Claims → Option ℕ → Result String (Claims × Bool)
unless_expired now c none = ok (c, true)
unless_expired now c (some exp) =
    if ltb now (exp * 1000000000) then ok (c, true) else err "token is expired"

abbrev verified : Time → Claims → String → Result String String → Result String (Claims × Bool)
verified now c key (ok k) =
    if str_eq k key then unless_expired now c c.expires_at else err "signature is invalid"
verified now c key (err e) = err e

abbrev parsed_parts :
    Time → (SigningMethod → Result String String) → Option Signed → Result String (Claims × Bool)
parsed_parts now keys (some (m, c, key)) = verified now c key (keys m)
parsed_parts now keys none = err "token is malformed"

abbrev pub signing : JwtLibrary
signing = record {
  signed_string = λ m c key. ok (signed_text m c key);
  parse_with_claims = λ now token keys. parsed_parts now keys (signed_parts token);
}

parsed_lem :
    (m : SigningMethod) (c : Claims) (key token : String) (now : Time)
    (keys : SigningMethod → Result String String)
    → signing.signed_string m c key ≡ ok token
    → signing.parse_with_claims now token keys ≡ verified now c key (keys m)
parsed_lem m c key token now keys h =
    let same : signed_text m c key ≡ token = cc h in
    ap (λ t. parsed_parts now keys (signed_parts t)) (sym same)
    ∙ ap (parsed_parts now keys) (signed_parts-text m c key)

verified-expired :
    (now : Time) (c : Claims) (key : String) (exp : ℕ) (k : Result String String)
    → c.expires_at ≡ some exp
    → exp * 1000000000 ≤ now
    → is_ok (verified now c key k) ≡ false
verified-expired now c key exp (ok k) e over = ground (arith, e, over)
verified-expired now c key exp (err x) e over = refl

pub signing-IsJwtLibrary : IsJwtLibrary signing
signing-IsJwtLibrary = record {
  parse_signed = λ m c key token now exp keys h k e live.
      parsed_lem m c key token now keys h ∙ rw (k, e) (ground (arith, live, str_eq_iff key key));
  parse_expired = λ m c key token now exp keys h e over.
      rw (parsed_lem m c key token now keys h) (verified-expired now c key exp (keys m) e over);
  parse_unverifiable =
      λ m c key token e now keys h k. rw (parsed_lem m c key token now keys h, k) refl;
}
