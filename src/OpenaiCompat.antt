-- ===== src/OpenaiCompat.antt =====
-- providers/openai-compat-agent/openai_compat_agent/main.py: a run relayed to an endpoint that
-- speaks OpenAI's format. What the endpoint streams is a parameter.
pub mod Brackets
use Prim.Native.String.{◌++◌}
use funduq_server.Prelude.{
  String, Bool, true, false, Option, none, some, List, [], ◌∷◌, ◌==◌, ◌||◌, ◌&&◌, if◌then◌else◌,
}
use funduq_server.Prelude as P
use funduq_server.Text.{rstrip_slash}
use funduq_server.Json.{Json, null, bool, str, arr, obj, of_list, Dict, dict, get, truthy}

-- `AgentConfig`, as far as it is read here; an absent text and an empty one are the same.
pub record AgentConfig : Type 0 where
  pub model : String
  pub api_base : String
  pub api_key : String
  pub system_prompt : String
  pub session_id_header : String
  pub memory_scope_header : String

is_chat_role : Json → Bool
is_chat_role (str role) = role == "user" || role == "assistant" || role == "system"
is_chat_role _ = false

message_of : Dict → List Json
unfolding is_chat_role
message_of message =
    if is_chat_role (get "role" message) && truthy (get "content" message)
    then obj (dict (("role", get "role" message) ∷ ("content", get "content" message) ∷ [])) ∷ []
    else []

chat_messages : List Dict → List Json
unfolding message_of
chat_messages [] = []
chat_messages (message ∷ rest) = P.◌++◌ (message_of message) (chat_messages rest)

system_message : String → List Json
system_message prompt =
    if prompt == ""
    then []
    else obj (dict (("role", str "system") ∷ ("content", str prompt) ∷ [])) ∷ []

-- `_build_messages`, on the messages of the run's input
unfoldable pub build_messages : AgentConfig → List Dict → List Json
unfolding chat_messages system_message
build_messages agent messages = P.◌++◌ (system_message agent.system_prompt) (chat_messages messages)

unfoldable pub request_body : AgentConfig → List Dict → Dict
request_body agent messages = dict (
    ("model", str agent.model)
    ∷ ("messages", arr (of_list (build_messages agent messages)))
    ∷ ("stream", bool true)
    ∷ [])

header : String → String → List (String × String)
header name value = if name == "" then [] else (name, value) ∷ []

bearer : String → List (String × String)
bearer key = if key == "" then [] else ("Authorization", "Bearer " ++ key) ∷ []

-- The headers in the order of their assignment; a later one replaces an earlier one of its name.
unfoldable pub request_headers : AgentConfig → String → List (String × String)
unfolding header bearer
request_headers agent thread_id =
    P.◌++◌ (bearer agent.api_key) (
      P.◌++◌ (header agent.session_id_header thread_id)
        (header agent.memory_scope_header thread_id))

unfoldable pub request_url : AgentConfig → String
request_url agent = rstrip_slash agent.api_base ++ "/chat/completions"

-- One event of the endpoint's stream: the sentinel, or a chunk with the contents of its choices'
-- deltas.
pub data Sse : Type 0 where
  sentinel : Sse
  chunk : List Json → Sse

-- What is yielded. The ids of the run, its thread and its message are the same in all, so an event
-- carries what differs.
pub data Event : Type 0 where
  run_started : Event
  text_message_start : Event
  text_message_content : Json → Event
  text_message_end : Event
  run_finished : Event
  run_error : String → Event

-- the loop over the choices: what is yielded, and whether a message has started
unfoldable pub on_deltas : Bool → List Json → List Event × Bool
on_deltas started [] = ([], started)
on_deltas started (delta ∷ rest) =
    let (skipped, started') = on_deltas started rest in
    let (more, started'') = on_deltas true rest in
    if truthy delta
    then (
      if started
          then text_message_content delta ∷ more
          else text_message_start ∷ text_message_content delta ∷ more,
      started'',
    )
    else (skipped, started')

at_end : Bool → List Event
at_end true = text_message_end ∷ run_finished ∷ []
at_end false = run_finished ∷ []

abbrev pub at_failure : String → List Event
at_failure e = run_error ("upstream call failed: " ++ e) ∷ []

-- the loop over the endpoint's events, which ends or, with the text of an exception, breaks off
unfoldable pub relay : Bool → List Sse → Option String → List Event
unfolding on_deltas at_end
relay started [] none = at_end started
relay started [] (some e) = at_failure e
relay started (sentinel ∷ rest) ending = at_end started
relay started (chunk deltas ∷ rest) ending =
    let (events, started') = on_deltas started deltas in P.◌++◌ events (relay started' rest ending)

-- `run_stream`
unfoldable pub run_stream : List Sse → Option String → List Event
unfolding relay
run_stream stream ending = run_started ∷ relay false stream ending
