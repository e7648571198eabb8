-- ===== src/Examples.antt =====
-- A small world for the tests: a core that keeps a journal of its calls, a contract whose models
-- accept what has the fields they need, and an SDK whose keys sign with a fixed word.
mod Provider
mod Kyok
mod Exchanges
mod Doors
mod Bridges
mod Callers
mod Docent
mod Clients
use Prim.Native.String.{◌++◌}
use funduq_server.Prelude.{
  ℕ, String, Bool, true, false, Option, none, some, List, [], ◌∷◌, map, ◌==◌, if◌then◌else◌, Result,
  ok, raise, ErrorClass, funduq_error, value_error,
}
use funduq_server.Json.{
  Json, null, bool, int, pos, str, obj, arr, of_list, Dict, get, dict, nonempty_str,
}
use funduq_server.Funduq.{
  Funduq, LlmFunduq, Contract, Validation, valid, invalid, Registration, Answer, taken, refusal,
}
use funduq_server.AgentSdk.Handshake.{Keys}

abbrev pub Journal : Type 0
Journal = List String

abbrev name_answer : Answer → String
name_answer (taken true) = "taken"
name_answer (taken false) = "declined"
name_answer (refusal reason) = "refused: " ++ reason

abbrev text_of : Json → String
text_of (str s) = s
text_of _ = "?"

abbrev pub toy_core : Funduq Journal
toy_core = record {
  identity_public_key = "souk";
  get_thread = λ s id. if id == "t1" then some (record { provider_key = "pk" }) else none;
  parties_of = λ s id. if id == "t1" then some ("pk" ∷ "user" ∷ []) else none;
  get_thread_messages = λ s id. str "one" ∷ str "two" ∷ str "three" ∷ [];
  get_agent = λ s ref. ref.name == "helper";
  attach_provider = λ s id hello.
      if hello.proof == "signed"
      then (ok "counter-signed", "attach" ∷ s)
      else (raise (record { class = value_error; text = "bad proof" }), s);
  register_agents = λ s id asks rs name. (ok (map (λ r. r.name) rs), "register" ∷ s);
  delete_agent = λ s id name. (ok tt, "delete" ∷ s);
  answer_offer = λ s run_id answer key. (text_of run_id ++ (" " ++ name_answer answer)) ∷ s;
  report_event = λ s run_id event key. (ok true, "event" ∷ s);
  finish_run = λ s run_id key. (ok false, s);
  detach_provider = λ s key id. "detach" ∷ s;
}

abbrev pub toy_llm_core : LlmFunduq Journal
toy_llm_core = record {
  identity_public_key = "souk";
  attach_llm_provider = λ s id hello. (ok "counter-signed", "attach" ∷ s);
  register_llm_providers = λ s id models metadata. (ok models, "register" ∷ s);
  delete_llm_offering = λ s id name. (ok tt, s);
  detach_llm_provider = λ s key id. "detach" ∷ s;
}

abbrev read_registration : Option String → Dict → Validation Registration
read_registration none d = invalid "name: field required"
read_registration (some name) d =
    valid (record { name = name; takes_interjections = get "takesInterjections" d })

abbrev is_core_error : ErrorClass → Bool
is_core_error funduq_error = true
is_core_error _ = false

abbrev is_value : ErrorClass → Bool
is_value value_error = true
is_value _ = false

abbrev pub toy_contract : Contract
toy_contract = record {
  repr = text_of;
  is_funduq_error = is_core_error;
  is_value_error = is_value;
  validate_registration = λ d. read_registration (nonempty_str (get "name" d)) d;
  validate_connect = λ c. valid tt;
  validate_verdict = λ v. valid tt;
  validate_chunk = λ d. valid (obj d);
}

abbrev pub toy_keys : Keys
toy_keys = record {
  public_key = "pk";
  sign_connect = λ key ticket nonce. "signed";
  funduq_connect_payload = λ ticket nonce. ticket ++ nonce;
  verify_signature = λ key signature payload. signature == "counter-signed";
}

abbrev pub hello_dict : Dict
hello_dict = dict (
    ("type", str "hello")
    ∷ ("version", int (pos 4))
    ∷ ("publicKey", str "pk")
    ∷ ("ticket", str "tk")
    ∷ ("nonce", str "nc")
    ∷ ("maxConcurrentRuns", null)
    ∷ ("proof", str "signed")
    ∷ [])

abbrev pub register_dict : Dict
register_dict = dict (
    ("type", str "register")
    ∷ ("agents", arr (of_list (obj (dict (("name", str "helper") ∷ [])) ∷ [])))
    ∷ [])

abbrev pub run_dict : Dict
run_dict = dict (("runId", str "r1") ∷ ("agentName", str "helper") ∷ ("input", str "hi") ∷ [])
