-- ===== src/Http/Replay.antt =====
-- internal/middleware/response_cache.go: what a client is sent on a miss, and what is sent again on
-- a hit.
use backend_infra_assessment.Base.{
  ◌≡◌, refl, sym, ap, ◌∙◌, inl, inr, String, Bool, true, false, List, ok, is_ok, Bool-cases, append,
  str_eq, str_eq_iff, if◌then◌else◌, arith,
}
use Prim.Native.String.append as append_lem
use backend_infra_assessment.Http.Cache.{CacheEntry, EntryCodec}
use backend_infra_assessment.Http.Isolation.{IsEntryCodec}
use backend_infra_assessment.Http.Capture.{
  ResponseWriter, captured, Output, emit, bytes_of, emit-captured,
}
use backend_infra_assessment.Http.Writer.{
  IsResponseWriter, Sent, Got, headers_first, set_header-body, emit-Got,
}

module _ {W : Type 0} (out : ResponseWriter W) where
  -- The part of ResponseCache from the capture to the entry, on the outputs of the handler. The test
  -- of the status that stands between them is in `store` of Http/Cache.
  unfoldable pub capture_entry : List Output → W → CacheEntry × W
  capture_entry outputs w =
      let (w', buffer) = (emit (captured out) outputs (out.set_header "X-Cache" "MISS" w, "")).1 in
      (
        record {
          status = out.status w';
          content_type = out.header w' "Content-Type";
          body = buffer;
        },
        w',
      )

  abbrev content_type_set : String → W → W
  content_type_set t w = if str_eq t "" then w else out.set_header "Content-Type" t w

  -- writeCachedResponse
  unfoldable pub write_cached_response : CacheEntry → W → W
  write_cached_response entry w =
      (out.write entry.body (
        out.write_header entry.status
          (out.set_header "X-Cache" "HIT" (content_type_set entry.content_type w)))).1

  -- Its write goes out.
  abbrev pub Written : CacheEntry → W → Type 0
  Written entry w =
      is_ok
        (out.write entry.body (
          out.write_header entry.status
            (out.set_header "X-Cache" "HIT" (content_type_set entry.content_type w)))).0
      ≡ true

-- A client that has been sent nothing.
abbrev pub IsBlank : Sent → Type 0
IsBlank x = (x.content_type ≡ "") × (x.body ≡ "")

module _ {W : Type 0} (canonical : String → String) (started : W → Bool) (sent : W → Sent)
    (out : ResponseWriter W) (io : IsResponseWriter canonical started sent out) where
  other_header : ¬ (canonical "X-Cache" ≡ "Content-Type")
  other_header e =
      let same : "X-Cache" ≡ "Content-Type" = sym io.canonical_cache ∙ e in
      ground (arith, same, str_eq_iff "X-Cache" "Content-Type")

  content_type_set_lem :
      (t : String) (w : W)
      → IsBlank (sent w)
      → started w ≡ false
      → sent (content_type_set out t w) ≡ record (sent w) { content_type = t }
  content_type_set_lem t w (blank, _) closed = elim (Bool-cases (str_eq t "")) [
    | inl e ↦
        let f : t ≡ "" = ground (arith, e, str_eq_iff t "") in
        rw e (λ i. record (sent w) { content_type = (blank ∙ sym f) i })
    | inr e ↦ rw e (io.set_content_type "Content-Type" t w io.canonical_content_type closed)
  ]

  started-content_type_set : (t : String) (w : W) → started (content_type_set out t w) ≡ started w
  started-content_type_set t w = elim (Bool-cases (str_eq t "")) [
    | inl e ↦ rw e refl
    | inr e ↦ rw e (io.set_header_started "Content-Type" t w)
  ]

  -- An entry that is replayed is what the client is sent.
  write_cached_response-sends :
      (entry : CacheEntry) (w : W)
      → IsBlank (sent w)
      → started w ≡ false
      → entry.status ≡ 200
      → ¬ (entry.content_type ≡ "")
      → Written out entry w
      → Got (sent (write_cached_response out entry w)) entry.status entry.content_type entry.body
  unfolding write_cached_response
  write_cached_response-sends entry w blank closed fine typed h =
      let w1 = content_type_set out entry.content_type w in
      let w2 = out.set_header "X-Cache" "HIT" w1 in
      let w3 = out.write_header entry.status w2 in
      let e2 : sent w2 ≡ record (sent w) { content_type = entry.content_type } =
        io.set_other "X-Cache" "HIT" w1 other_header
        ∙ content_type_set_lem entry.content_type w blank closed in
      let closed2 =
        io.set_header_started "X-Cache" "HIT" w1
        ∙ started-content_type_set entry.content_type w
        ∙ closed in
      let e3 = io.write_header_first entry.status w2 (omega (arith, fine)) closed2 in
      let status = ap (λ (x : Sent). x.status) e3 in
      let content = ap (λ (x : Sent). x.content_type) e3 ∙ ap (λ (x : Sent). x.content_type) e2 in
      let empty = ap (λ (x : Sent). x.body) e3 ∙ ap (λ (x : Sent). x.body) e2 ∙ blank.1 in
      let e4 = io.write_ok entry.body w3 (status ∙ fine) (λ k. typed (sym content ∙ k)) h in
      (
        ap (λ (x : Sent). x.status) e4 ∙ status,
        ap (λ (x : Sent). x.content_type) e4 ∙ content,
        ap (λ (x : Sent). x.body) e4
            ∙ ap (λ b. append b entry.body) empty
            ∙ append_lem.nil entry.body,
      )

  capture_entry_lem :
      (outputs : List Output) (w : W)
      → let w' = (emit out outputs (out.set_header "X-Cache" "MISS" w)).1 in
        capture_entry out outputs w ≡ (
          record {
            status = out.status w';
            content_type = out.header w' "Content-Type";
            body = append "" (bytes_of outputs);
          },
          w',
        )
  unfolding capture_entry
  capture_entry_lem outputs w =
      rw (emit-captured out outputs (out.set_header "X-Cache" "MISS" w) "") refl

  -- What is kept of a response is what its client is sent, if all writes of the handler went out.
  capture_entry-Got :
      (outputs : List Output) (w : W)
      → (sent w).body ≡ ""
      → started w ≡ false
      → headers_first outputs ≡ true
      → (emit out outputs (out.set_header "X-Cache" "MISS" w)).0 ≡ true
      → let (entry, w') = capture_entry out outputs w in
        entry.status ≡ 200
        → ¬ (entry.content_type ≡ "")
        → Got (sent w') entry.status entry.content_type entry.body
  capture_entry-Got outputs w blank closed k h =
      let w1 = out.set_header "X-Cache" "MISS" w in
      let before =
        set_header-body canonical started sent out io "X-Cache" "MISS" w closed ∙ blank in
      rw (capture_entry_lem outputs w) (λ fine typed.
        let (status, content, body) =
          emit-Got canonical started sent out io outputs w1 k
            (io.set_header_started "X-Cache" "MISS" w ∙ closed) h fine typed in
        (status, content, body ∙ ap (λ x. append x (bytes_of outputs)) before))

  -- Where a handler sets its status and its headers before its first write, and a content type among
  -- them, and the writes went out: a client that is replayed the kept entry is sent the same status,
  -- content type and body as the client whose response was captured, in whatever encoding the entry
  -- was kept.
  pub replay-faithful :
      (codec : EntryCodec) (outputs : List Output) (raw : String) (entry : CacheEntry) (w w' : W)
      → IsEntryCodec codec
      → (sent w).body ≡ ""
      → started w ≡ false
      → headers_first outputs ≡ true
      → (emit out outputs (out.set_header "X-Cache" "MISS" w)).0 ≡ true
      → (capture_entry out outputs w).0.status ≡ 200
      → ¬ ((capture_entry out outputs w).0.content_type ≡ "")
      → codec.marshal (capture_entry out outputs w).0 ≡ ok raw
      → codec.unmarshal raw ≡ ok entry
      → IsBlank (sent w')
      → started w' ≡ false
      → Written out entry w'
      → sent (write_cached_response out entry w') ≡ sent (capture_entry out outputs w).1
  unfolding IsEntryCodec
  replay-faithful codec outputs raw entry w w' ic blank closed k h fine typed kept read blank'
        closed' sends =
      let first = (capture_entry out outputs w).0 in
      let same = ic first entry raw kept read in
      let typed' = λ (t : entry.content_type ≡ "").
        typed (sym (ap (λ (x : CacheEntry). x.content_type) same) ∙ t) in
      let (a, c, d) =
        write_cached_response-sends entry w' blank' closed'
          (ap (λ (x : CacheEntry). x.status) same ∙ fine) typed' sends in
      let (a', c', d') = capture_entry-Got outputs w blank closed k h fine typed in
      let status = a ∙ ap (λ (x : CacheEntry). x.status) same ∙ sym a' in
      let content = c ∙ ap (λ (x : CacheEntry). x.content_type) same ∙ sym c' in
      let body = d ∙ ap (λ (x : CacheEntry). x.body) same ∙ sym d' in
      λ i. record { status = status i; content_type = content i; body = body i }
