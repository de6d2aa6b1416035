-- ===== src/Tests/Uuids.antt =====
-- Identifiers written as strokes: no colon, and no two alike.
use Prim.Native.Char.{Char, code}
use Prim.Native.String.{[] as end, ◌∷◌ as then_char, count}
use Prim.Native.String.append as append_lem
use Prim.Native.String.count as count_lem
use backend_infra_assessment.Base.{ℕ, zero, suc, ◌≡◌, sym, ap, subst, ◌∙◌, arith}
use backend_infra_assessment.Http.Keys.{NoColon, IsUuidText}
use backend_infra_assessment.Tests.Memory.{still_platform, tally}

abbrev one : Char
one = "1"

tally-NoColon : (n : ℕ) → NoColon (tally n)
unfolding tally
tally-NoColon zero = tt
tally-NoColon (suc n) =
    let e =
      append_lem.cons one end (tally n) ∙ ap (λ t. then_char one t) (append_lem.nil (tally n)) in
    subst NoColon (sym e) (λ c. let f = ap code c in omega (arith, f), tally-NoColon n)

count-tally : (n : ℕ) → count (tally n) ≡ n
unfolding tally
count-tally zero = count_lem.nil
count-tally (suc n) =
    let e =
      append_lem.cons one end (tally n) ∙ ap (λ t. then_char one t) (append_lem.nil (tally n)) in
    let f = ap count e in omega (arith, f, count_lem.cons one (tally n), count-tally n)

pub still_platform-IsUuidText : {W : Type 0} → IsUuidText (still_platform {W = W})
still_platform-IsUuidText = record {
  no_colon = tally-NoColon;
  unlike = λ u v e. sym (count-tally u) ∙ ap count e ∙ count-tally v;
}
