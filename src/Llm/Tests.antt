-- ===== src/Llm/Tests.antt =====
-- A server that answers every prompt, and one that is down.
use backend_infra_assessment.Base.{◌≡◌, refl, true, ok, err}
use Prim.Native.String.{◌++◌}
use backend_infra_assessment.Llm.{
  unavailable, joined, foreign, is_unavailable, OllamaConfig, Ollama, HttpLibrary, trim_slashes,
  generate, new_client,
}
use backend_infra_assessment.Llm.Laws.{new_client-unavailable}

abbrev answers : HttpLibrary (Unit {0})
answers = record {
  marshal = λ r. ok r.prompt;
  new_request = λ url. ok tt;
  send = λ time timeout r w. (ok (record { status = 200; body = "quiet: " ++ r.body }), w);
  decode = λ s. ok s;
  decimal = λ n. "n";
  trim_space = λ s. s;
}

abbrev down : HttpLibrary (Unit {0})
down = record answers { send = λ time timeout r w. (err "connection refused", w) }

abbrev config : OllamaConfig
config = record {
  base_url = "http://ollama:11434//";
  model = "llama3.2:1b";
  timeout = 60;
  cf_access_client_id = "";
  cf_access_client_secret = "";
}

abbrev client : Ollama
client = record {
  base_url = "http://ollama:11434";
  model = "llama3.2:1b";
  cf_id = "";
  cf_key = "";
  timeout = 60;
}

trimmed : trim_slashes "http://ollama:11434//" ≡ "http://ollama:11434"
unfolding trim_slashes
trimmed = refl

refused :
    ((new_client down config).generate 60 "hello" tt).0
    ≡ err (joined unavailable "" (foreign "connection refused"))
unfolding new_client
refused = refl

new_client-unavailable_example :
    is_unavailable (joined unavailable "" (foreign "connection refused")) ≡ true
new_client-unavailable_example =
    new_client-unavailable down config 60 "hello"
      (joined unavailable "" (foreign "connection refused")) tt refused

generated : (generate answers client 60 "hello" tt).0 ≡ ok "quiet: hello"
unfolding generate
generated = refl
