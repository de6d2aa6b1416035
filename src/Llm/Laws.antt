-- ===== src/Llm/Laws.antt =====
-- What a caller of pkg/llm gets.
use Prim.Native.String.{slice}
use backend_infra_assessment.Base.{
  ◌≡◌, inl, inr, refl, ap, ◌∙◌, String, true, false, ok, err, str_eq, str_eq_iff, Result-cases,
  Bool-cases, arith, ◌==◌, append,
}
use backend_infra_assessment.Domain.{Duration}
use backend_infra_assessment.Llm.{
  LlmError, is_unavailable, OllamaConfig, Ollama, HttpLibrary, HttpResponse, GenerateRequest,
  generate, new_client, post, read_response,
}

module _ {W : Type 0} (lib : HttpLibrary W) where
  generate_error :
      (o : Ollama) (time : Duration) (prompt : String) (e : LlmError) (w : W)
      → (generate lib o time prompt w).0 ≡ err e
      → is_unavailable e ≡ true
  unfolding generate
  generate_error o time prompt e w h =
      let request : GenerateRequest = record { model = o.model; prompt = prompt; stream = false } in
      elim (Result-cases (lib.marshal request)) [
        | inr (x, f) ↦ ground (arith, f)
        | inl (body, f) ↦
            elim (Result-cases (lib.new_request (append o.base_url "/api/generate"))) [
              | inr (x, g) ↦ ground (arith, f, g)
              | inl (t, g) ↦ elim (Result-cases (lib.send time o.timeout (post o body) w).0) [
                | inr (x, k) ↦ ground (arith, f, g, k)
                | inl (r, k) ↦ elim (Result-cases (lib.decode (slice r.body 0 1048576))) [
                  | inr (x, l) ↦ ground (arith, f, g, k, l)
                  | inl (text, l) ↦ ground (arith, f, g, k, l)
                ]
              ]
            ]
      ]

  -- Every error of a client that New makes is ErrUnavailable, which the callers turn into a 503.
  pub new_client-unavailable :
      (cfg : OllamaConfig) (time : Duration) (prompt : String) (e : LlmError) (w : W)
      → ((new_client lib cfg).generate time prompt w).0 ≡ err e
      → is_unavailable e ≡ true
  unfolding new_client
  new_client-unavailable cfg time prompt e w h = elim (Bool-cases (str_eq cfg.base_url "")) [
    | inl off ↦ ground (arith, off)
    | inr on ↦ generate_error _ time prompt e w (rw on at h)
  ]

  read_response_ok :
      (r : HttpResponse) (text : String) (w : W)
      → (read_response lib r w).0 ≡ ok text
      → (r.status ≡ 200)
        × (lib.decode (slice r.body 0 1048576) ≡ ok text)
        × (¬ (lib.trim_space text ≡ ""))
        × ((read_response lib r w).1 ≡ w)
  read_response_ok r text w h = elim (Bool-cases (r.status == 200)) [
    | inr e ↦ cc (rw e at h)
    | inl e ↦ elim (Result-cases (lib.decode (slice r.body 0 1048576))) [
      | inr (x, f) ↦ cc (rw (e, f) at h)
      | inl (t, f) ↦ elim (Bool-cases (str_eq (lib.trim_space t) "")) [
        | inl g ↦ cc (rw (e, f, g) at h)
        | inr g ↦
            let same : t ≡ text = cc (rw (e, f, g) at h) in
            (
              ground (arith, e),
              f ∙ ap ok same,
              λ k. ground (arith, g, str_eq_iff (lib.trim_space t) "", ap lib.trim_space same, k),
              rw (e, f, g) refl,
            )
      ]
    ]
  ]

  -- A text comes only out of a response with status 200 to a request that was sent with the prompt,
  -- decoded from at most a mebibyte of its body, and it is not blank.
  pub generate-ok :
      (o : Ollama) (time : Duration) (prompt text : String) (w : W)
      → (generate lib o time prompt w).0 ≡ ok text
      → (body : String) × (r : HttpResponse) × (lib.marshal
            (record { model = o.model; prompt = prompt; stream = false })
          ≡ ok body)
        × ((lib.send time o.timeout (post o body) w).0 ≡ ok r)
        × ((generate lib o time prompt w).1 ≡ (lib.send time o.timeout (post o body) w).1)
        × (r.status ≡ 200)
        × (lib.decode (slice r.body 0 1048576) ≡ ok text)
        × (¬ (lib.trim_space text ≡ ""))
  unfolding generate
  generate-ok o time prompt text w h =
      let request : GenerateRequest = record { model = o.model; prompt = prompt; stream = false } in
      elim (Result-cases (lib.marshal request)) [
        | inr (x, f) ↦ cc (rw f at h)
        | inl (body, f) ↦
            elim (Result-cases (lib.new_request (append o.base_url "/api/generate"))) [
              | inr (x, g) ↦ cc (rw (f, g) at h)
              | inl (t, g) ↦ elim (Result-cases (lib.send time o.timeout (post o body) w).0) [
                | inr (x, k) ↦ cc (rw (f, g, k) at h)
                | inl (r, k) ↦
                    let w' = (lib.send time o.timeout (post o body) w).1 in
                    let (status, decoded, text_there, same) =
                      read_response_ok r text w' (rw (f, g, k) at h) in
                    (body, r, f, k, rw (f, g, k) same, status, decoded, text_there)
              ]
            ]
      ]
