-- ===== src/Llm.antt =====
-- pkg/llm/ollama.go: the client of a local language model. net/http, encoding/json and
-- strings.TrimSpace are parameters.
pub mod Laws
mod Tests
use Prim.Native.String.{[] as end, ◌∷◌ as then_char, slice}
use Prim.Native.Char.{Char}
use backend_infra_assessment.Base.{
  ℕ, ◌≡◌, refl, String, Bool, true, false, List, [], ◌∷◌, ◌++◌, Result, ok, err, Exec, pure, raise,
  ◌>>=◌, ◌>>◌, ◌||◌, ◌==◌, not, append, str_eq, str_eq_iff, if◌then◌else◌, Result-cases, Bool-cases,
  inl, inr, arith, >>=-eq-ok,
}
use backend_infra_assessment.Domain.{Duration}

-- The errors of the package: ErrUnavailable, an error of a library, and what fmt.Errorf makes of them.
pub data LlmError : Type 0 where
  unavailable : LlmError
  foreign : String → LlmError
  -- "%w: text"
  explained : LlmError → String → LlmError
  -- "%w: text: %w"
  joined : LlmError → String → LlmError → LlmError

-- errors.Is(err, ErrUnavailable)
abbrev pub is_unavailable : LlmError → Bool
is_unavailable unavailable = true
is_unavailable (foreign t) = false
is_unavailable (explained e t) = is_unavailable e
is_unavailable (joined e t f) = is_unavailable e || is_unavailable f

-- llm.Client, with the time that the context leaves.
pub record LlmClient (W : Type 0) : Type 0 where
  pub generate : Duration → String → Exec W LlmError String

pub record OllamaConfig : Type 0 where
  pub base_url : String
  pub model : String
  pub timeout : Duration
  pub cf_access_client_id : String
  pub cf_access_client_secret : String

pub record Ollama : Type 0 where
  pub base_url : String
  pub model : String
  pub cf_id : String
  pub cf_key : String
  -- the Timeout of its http.Client
  pub timeout : Duration

pub record GenerateRequest : Type 0 where
  pub model : String
  pub prompt : String
  pub stream : Bool

pub record HttpRequest : Type 0 where
  pub method : String
  pub url : String
  pub headers : List (String × String)
  pub body : String

pub record HttpResponse : Type 0 where
  pub status : ℕ
  pub body : String

-- What the client uses of net/http, encoding/json, fmt and strings.
pub record HttpLibrary (W : Type 0) : Type 0 where
  pub marshal : GenerateRequest → Result String String
  -- http.NewRequestWithContext: does it accept the URL?
  pub new_request : String → Result String Unit
  -- http.Client.Do under a context's time and the client's Timeout
  pub send : Duration → Duration → HttpRequest → Exec W String HttpResponse
  -- json.Decoder.Decode of a generateResponse
  pub decode : String → Result String String
  pub decimal : ℕ → String
  pub trim_space : String → String

abbrev slash : Char
slash = "/"

-- strings.TrimRight(s, "/")
abbrev without_slash : Char → String → String
without_slash c end = if str_eq (then_char c end) "/" then end else then_char c end
without_slash c (then_char d s) = then_char c (then_char d s)

unfoldable pub trim_slashes : String → String
trim_slashes end = end
trim_slashes (then_char c s) = without_slash c (trim_slashes s)

-- The Cloudflare Access headers, where they are configured.
abbrev access_headers : Ollama → List (String × String)
access_headers o =
    if str_eq o.cf_id ""
    then []
    else (("CF-Access-Client-Id", o.cf_id) ∷ ("CF-Access-Client-Secret", o.cf_key) ∷ [])

abbrev pub post : Ollama → String → HttpRequest
post o body = record {
  method = "POST";
  url = append o.base_url "/api/generate";
  headers = ("Content-Type", "application/json") ∷ access_headers o;
  body = body;
}

module _ {W : Type 0} (lib : HttpLibrary W) where
  -- `if err != nil { return "", fmt.Errorf("%w: text: %v", ErrUnavailable, err) }`
  abbrev pub or_unavailable : {A : Type 0} → String → Result String A → Exec W LlmError A
  or_unavailable text (ok a) = pure a
  or_unavailable text (err e) = raise (explained unavailable (append text e))

  -- `if err != nil { return "", fmt.Errorf("%w: text: %w", ErrUnavailable, err) }`
  abbrev pub or_joined : {A : Type 0} → String → Result String A → Exec W LlmError A
  or_joined text (ok a) = pure a
  or_joined text (err e) = raise (joined unavailable text (foreign e))

  -- The part of Generate after the response has been decoded.
  abbrev pub checked_text : String → Exec W LlmError String
  checked_text text =
      if str_eq (lib.trim_space text) ""
      then raise (explained unavailable "empty response")
      else pure text

  -- The part of Generate after the response has come.
  abbrev pub read_response : HttpResponse → Exec W LlmError String
  read_response r =
      if not (r.status == 200)
      then raise (
          explained unavailable
            (append "status " (append (lib.decimal r.status) (append ": " (slice r.body 0 512)))))
      else (do
        text ← or_joined "decode response" (lib.decode (slice r.body 0 1048576))
        checked_text text)

  unfoldable pub generate : Ollama → Duration → String → Exec W LlmError String
  generate o time prompt = do
    body ←
        or_unavailable "marshal request: "
          (lib.marshal (record { model = o.model; prompt = prompt; stream = false }))
    or_unavailable "build request: " (lib.new_request (append o.base_url "/api/generate"))
    response ← (λ w.
        or_joined "" (lib.send time o.timeout (post o body) w).0
          (lib.send time o.timeout (post o body) w).1)
    read_response response

  abbrev disabled : LlmClient W
  disabled = record { generate = λ time prompt. raise unavailable }

  unfoldable pub new_client : OllamaConfig → LlmClient W
  unfolding generate
  new_client cfg = if str_eq cfg.base_url "" then disabled else record {
    generate = generate (record {
      base_url = trim_slashes cfg.base_url;
      model = cfg.model;
      cf_id = cfg.cf_access_client_id;
      cf_key = cfg.cf_access_client_secret;
      timeout = cfg.timeout;
    });
  }
