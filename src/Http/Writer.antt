-- ===== src/Http/Writer.antt =====
-- What Gin's ResponseWriter documents, and what a client is sent by a handler that sets its headers
-- before it writes.
use backend_infra_assessment.Base.{
  ℕ, ◌≡◌, ◌<◌, refl, sym, ap, ◌∙◌, inl, inr, String, Bool, true, false, List, [], ◌∷◌, is_ok,
  Bool-cases, append, str_eq, str_eq_iff, arith,
}
use text.Mathlib.TextLemmas.{append-nil, append_assoc}
use backend_infra_assessment.Http.Capture.{
  ResponseWriter, Output, writes, writes_string, sets_header, writes_header, emit, bytes_of,
}

-- What a client has been sent by a writer.
pub record Sent : Type 0 where
  pub status : ℕ
  pub content_type : String
  pub body : String

-- The documented behaviour of Gin's writer over net/http, for a `started` that says whether the headers
-- have gone out. Until then a status and headers count, whose names http.Header brings into a canonical
-- form. A write with status 200 sends its bytes as they are; without a content type net/http finds one.
pub record IsResponseWriter {W : Type 0} (canonical : String → String) (started : W → Bool)
    (sent : W → Sent) (out : ResponseWriter W) : Type 0 where
  pub canonical_content_type : canonical "Content-Type" ≡ "Content-Type"
  pub canonical_cache : canonical "X-Cache" ≡ "X-Cache"
  pub write_ok :
      (b : String) (w : W)
      → (sent w).status ≡ 200
      → ¬ ((sent w).content_type ≡ "")
      → is_ok (out.write b w).0 ≡ true
      → sent (out.write b w).1 ≡ record (sent w) { body = append (sent w).body b }
  pub write_status : (b : String) (w : W) → out.status (out.write b w).1 ≡ out.status w
  pub write_header_map : (b k : String) (w : W) → out.header (out.write b w).1 k ≡ out.header w k
  pub write_string_ok :
      (b : String) (w : W)
      → (sent w).status ≡ 200
      → ¬ ((sent w).content_type ≡ "")
      → is_ok (out.write_string b w).0 ≡ true
      → sent (out.write_string b w).1 ≡ record (sent w) { body = append (sent w).body b }
  pub write_string_status :
      (b : String) (w : W) → out.status (out.write_string b w).1 ≡ out.status w
  pub write_string_header_map :
      (b k : String) (w : W) → out.header (out.write_string b w).1 k ≡ out.header w k
  pub set_content_type :
      (k v : String) (w : W)
      → canonical k ≡ "Content-Type"
      → started w ≡ false
      → sent (out.set_header k v w) ≡ record (sent w) { content_type = v }
  pub set_other :
      (k v : String) (w : W)
      → ¬ (canonical k ≡ "Content-Type")
      → sent (out.set_header k v w) ≡ sent w
  pub set_header_started : (k v : String) (w : W) → started (out.set_header k v w) ≡ started w
  pub write_header_first :
      (n : ℕ) (w : W)
      → 0 < n
      → started w ≡ false
      → sent (out.write_header n w) ≡ record (sent w) { status = n }
  pub write_header_body : (n : ℕ) (w : W) → (sent (out.write_header n w)).body ≡ (sent w).body
  pub write_header_started : (n : ℕ) (w : W) → started (out.write_header n w) ≡ started w
  pub status_lem : (w : W) → started w ≡ false → out.status w ≡ (sent w).status
  pub header_lem : (w : W) → started w ≡ false → out.header w "Content-Type" ≡ (sent w).content_type

-- Outputs that only write, and outputs whose status and headers are set before the first write.
unfoldable pub is_body : List Output → Bool
is_body [] = true
is_body (writes b ∷ more) = is_body more
is_body (writes_string b ∷ more) = is_body more
is_body (sets_header k v ∷ more) = false
is_body (writes_header n ∷ more) = false

unfoldable pub headers_first : List Output → Bool
headers_first [] = true
headers_first (writes b ∷ more) = is_body more
headers_first (writes_string b ∷ more) = is_body more
headers_first (sets_header k v ∷ more) = headers_first more
headers_first (writes_header n ∷ more) = headers_first more

-- What a client has been sent, part by part.
abbrev pub Got : Sent → ℕ → String → String → Type 0
Got x status content_type body =
    (x.status ≡ status) × (x.content_type ≡ content_type) × (x.body ≡ body)

module _ {W : Type 0} (canonical : String → String) (started : W → Bool) (sent : W → Sent)
    (out : ResponseWriter W) (io : IsResponseWriter canonical started sent out) where
  -- Outputs that only write leave the status and the headers of the writer.
  body-kept :
      (outputs : List Output) (w : W)
      → is_body outputs ≡ true
      → let w' = (emit out outputs w).1 in
        (out.status w' ≡ out.status w)
        × (out.header w' "Content-Type" ≡ out.header w "Content-Type")
  unfolding emit is_body
  body-kept [] w h = (refl, refl)
  body-kept (writes b ∷ more) w h =
      let (status, content) = body-kept more (out.write b w).1 h in
      (status ∙ io.write_status b w, content ∙ io.write_header_map b "Content-Type" w)
  body-kept (writes_string b ∷ more) w h =
      let (status, content) = body-kept more (out.write_string b w).1 h in
      (status ∙ io.write_string_status b w, content ∙ io.write_string_header_map b "Content-Type" w)
  body-kept (sets_header k v ∷ more) w h = cc h
  body-kept (writes_header n ∷ more) w h = cc h

  written-Got :
      (b rest : String) (w : W) (x x' : Sent)
      → x ≡ record (sent w) { body = append (sent w).body b }
      → Got x' x.status x.content_type (append x.body rest)
      → Got x' (sent w).status (sent w).content_type (append (sent w).body (append b rest))
  written-Got b rest w x x' e (status, content, body) = (
    status ∙ ap (λ (y : Sent). y.status) e,
    content ∙ ap (λ (y : Sent). y.content_type) e,
    body ∙ ap (λ (y : Sent). append y.body rest) e ∙ append_assoc (sent w).body b rest,
  )

  -- The bytes that a handler writes reach the client in order.
  body-Got :
      (outputs : List Output) (w : W)
      → is_body outputs ≡ true
      → (sent w).status ≡ 200
      → ¬ ((sent w).content_type ≡ "")
      → (emit out outputs w).0 ≡ true
      → Got
          (sent (emit out outputs w).1)
          (sent w).status
          (sent w).content_type
          (append (sent w).body (bytes_of outputs))
  unfolding emit bytes_of is_body
  body-Got [] w k fine typed h = (refl, refl, sym (append-nil (sent w).body))
  body-Got (writes b ∷ more) w k fine typed h = elim (Bool-cases (is_ok (out.write b w).0)) [
    | inr e ↦ cc (rw e at h)
    | inl e ↦
        let w' = (out.write b w).1 in
        let same = io.write_ok b w fine typed e in
        written-Got b (bytes_of more) w (sent w') (sent (emit out more w').1) same (
          body-Got more w' k (ap (λ (x : Sent). x.status) same ∙ fine)
            (λ t. typed (sym (ap (λ (x : Sent). x.content_type) same) ∙ t)) (rw e at h))
  ]
  body-Got (writes_string b ∷ more) w k fine typed h =
      elim (Bool-cases (is_ok (out.write_string b w).0)) [
        | inr e ↦ cc (rw e at h)
        | inl e ↦
            let w' = (out.write_string b w).1 in
            let same = io.write_string_ok b w fine typed e in
            written-Got b (bytes_of more) w (sent w') (sent (emit out more w').1) same (
              body-Got more w' k (ap (λ (x : Sent). x.status) same ∙ fine)
                (λ t. typed (sym (ap (λ (x : Sent). x.content_type) same) ∙ t)) (rw e at h))
      ]
  body-Got (sets_header x v ∷ more) w k fine typed h = cc k
  body-Got (writes_header n ∷ more) w k fine typed h = cc k

  pub set_header-body :
      (k v : String) (w : W)
      → started w ≡ false
      → (sent (out.set_header k v w)).body ≡ (sent w).body
  set_header-body k v w closed = elim (Bool-cases (str_eq (canonical k) "Content-Type")) [
    | inl e ↦
        let f : canonical k ≡ "Content-Type" = (str_eq_iff (canonical k) "Content-Type").0 e in
        ap (λ (x : Sent). x.body) (io.set_content_type k v w f closed)
    | inr e ↦
        ap (λ (x : Sent). x.body)
          (io.set_other k v w (λ f. ground (arith, e, f, str_eq_iff (canonical k) "Content-Type")))
  ]

  -- What the writer says at the end is what the client is sent, where the first write comes after the
  -- headers.
  all_written-Got :
      (outputs : List Output) (w : W)
      → is_body outputs ≡ true
      → started w ≡ false
      → let w' = (emit out outputs w).1 in
        (emit out outputs w).0 ≡ true
        → out.status w' ≡ 200
        → ¬ (out.header w' "Content-Type" ≡ "")
        → Got
            (sent w')
            (out.status w')
            (out.header w' "Content-Type")
            (append (sent w).body (bytes_of outputs))
  all_written-Got outputs w k closed h fine typed =
      let (status, content) = body-kept outputs w k in
      let status' = sym (status ∙ io.status_lem w closed) in
      let content' = sym (content ∙ io.header_lem w closed) in
      let (a, c, d) = body-Got outputs w k (status' ∙ fine) (λ t. typed (sym content' ∙ t)) h in
      (a ∙ status', c ∙ content', d)

  pub emit-Got :
      (outputs : List Output) (w : W)
      → headers_first outputs ≡ true
      → started w ≡ false
      → let w' = (emit out outputs w).1 in
        (emit out outputs w).0 ≡ true
        → out.status w' ≡ 200
        → ¬ (out.header w' "Content-Type" ≡ "")
        → Got
            (sent w')
            (out.status w')
            (out.header w' "Content-Type")
            (append (sent w).body (bytes_of outputs))
  unfolding emit bytes_of headers_first is_body
  emit-Got [] w k closed h fine typed = all_written-Got [] w refl closed h fine typed
  emit-Got (writes b ∷ more) w k closed h fine typed =
      all_written-Got (writes b ∷ more) w k closed h fine typed
  emit-Got (writes_string b ∷ more) w k closed h fine typed =
      all_written-Got (writes_string b ∷ more) w k closed h fine typed
  emit-Got (sets_header x v ∷ more) w k closed h fine typed =
      let (status, content, body) =
        emit-Got more (out.set_header x v w) k (io.set_header_started x v w ∙ closed) h fine
          typed in
      (status, content, body ∙ ap (λ y. append y (bytes_of more)) (set_header-body x v w closed))
  emit-Got (writes_header n ∷ more) w k closed h fine typed =
      let (status, content, body) =
        emit-Got more (out.write_header n w) k (io.write_header_started n w ∙ closed) h fine
          typed in
      (status, content, body ∙ ap (λ y. append y (bytes_of more)) (io.write_header_body n w))
