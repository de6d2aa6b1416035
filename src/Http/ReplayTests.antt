-- ===== src/Http/ReplayTests.antt =====
-- A writer in memory, a captured response and its replay.
use backend_infra_assessment.Base.{
  ◌≡◌, refl, String, Bool, true, false, arith, [], ◌∷◌, ok, append, str_eq, str_eq_iff,
  if◌then◌else◌, Bool-cases, inl, inr,
}
use backend_infra_assessment.Http.Capture.{
  ResponseWriter, Output, writes, writes_string, sets_header, writes_header, emit,
}
use backend_infra_assessment.Http.Replay.{write_cached_response, capture_entry, replay-faithful}
use backend_infra_assessment.Http.Writer.{Sent, IsResponseWriter, headers_first, is_body}
use backend_infra_assessment.Http.Tests.{page, page_codec, page_codec-IsEntryCodec}
use backend_infra_assessment.Base.{List}

-- The status and the content type of a sheet are kept once it has been written on.
record Sheet : Type 0 where
  begun : Bool
  print : Sent

abbrev print_of : Sheet → Sent
print_of w = w.print

abbrev begun_of : Sheet → Bool
begun_of w = w.begun

abbrev inked : String → Sheet → Sheet
inked b w = record { begun = true; print = record w.print { body = append w.print.body b } }

abbrev typed : String → String → Sheet → Sheet
typed k v w =
    if w.begun
    then w
    else if str_eq k "Content-Type"
    then record w { print = record w.print { content_type = v } }
    else w

unfoldable paper : ResponseWriter Sheet
paper = record {
  write = λ b w. (ok 1, inked b w);
  write_string = λ b w. (ok 1, inked b w);
  set_header = typed;
  header = λ w k. if str_eq k "Content-Type" then w.print.content_type else "";
  write_header = λ n w. if w.begun then w else record w { print = record w.print { status = n } };
  status = λ w. w.print.status;
}

typed_begun : (k v : String) (w : Sheet) → begun_of (typed k v w) ≡ begun_of w
typed_begun k v w = elim (Bool-cases w.begun) [
  | inl e ↦ rw e refl
  | inr e ↦ elim (Bool-cases (str_eq k "Content-Type")) [
    | inl f ↦ rw (e, f) refl
    | inr f ↦ rw (e, f) refl
  ]
]

typed_other :
    (k v : String) (w : Sheet) → ¬ (k ≡ "Content-Type") → print_of (typed k v w) ≡ print_of w
typed_other k v w h = elim (Bool-cases w.begun) [
  | inl e ↦ rw e refl
  | inr e ↦ elim (Bool-cases (str_eq k "Content-Type")) [
    | inl f ↦ absurd (h ((str_eq_iff k "Content-Type").0 f))
    | inr f ↦ rw (e, f) refl
  ]
]

paper-IsResponseWriter : IsResponseWriter (λ k. k) begun_of print_of paper
unfolding paper
paper-IsResponseWriter = record {
  canonical_content_type = refl;
  canonical_cache = refl;
  write_ok = λ b w fine typed h. refl;
  write_status = λ b w. refl;
  write_header_map = λ b k w. refl;
  write_string_ok = λ b w fine typed h. refl;
  write_string_status = λ b w. refl;
  write_string_header_map = λ b k w. refl;
  set_content_type = λ k v w h e. rw (e, h) refl;
  set_other = typed_other;
  set_header_started = typed_begun;
  write_header_first = λ n w some e. rw e refl;
  write_header_body = λ n w. elim (Bool-cases w.begun) [ inl e ↦ rw e refl | inr e ↦ rw e refl ];
  write_header_started = λ n w. elim (Bool-cases w.begun) [ inl e ↦ rw e refl | inr e ↦ rw e refl ];
  status_lem = λ w e. refl;
  header_lem = λ w e. refl;
}

abbrev blank : Sheet
blank = record { begun = false; print = record { status = 200; content_type = ""; body = "" } }

abbrev outputs : List Output
outputs =
    writes_header 200
    ∷ sets_header "Content-Type" "application/json"
    ∷ writes "{\"email\":"
    ∷ writes_string "\"ann\"}"
    ∷ []

abbrev whole : String
whole = "{\"email\":\"ann\"}"

json_type : ¬ (Path String "application/json" "")
json_type e = ground (arith, e, str_eq_iff "application/json" "")

replay-faithful_example :
    print_of (write_cached_response paper (page whole) blank)
    ≡ print_of (capture_entry paper outputs blank).1
unfolding paper emit capture_entry headers_first is_body
replay-faithful_example =
    replay-faithful (λ k. k) begun_of print_of paper paper-IsResponseWriter page_codec outputs whole
      (page whole) blank blank page_codec-IsEntryCodec refl refl refl refl refl json_type refl refl
      (refl, refl) refl refl
