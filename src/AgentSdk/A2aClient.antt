-- ===== src/AgentSdk/A2aClient.antt =====
-- souk-agent-sdk/souk_agent_sdk/a2a_client.py: the calls of another agent. A call is what it puts
-- on the wire and what it makes of the answer; the HTTP client between them is not modelled.
-- Fresh ids are arguments.
use Prim.Native.String as S
use funduq_server.Prelude.{
  String, Bool, true, false, Option, none, some, List, [], ◌∷◌, ◌==◌, if◌then◌else◌, map, is_some,
  Result, ok, raise, ErrorClass, ◌>>=◌,
}
use funduq_server.Json.{
  ℤ, Json, null, bool, int, str, arr, obj, of_list, Dict, empty, get, dict, put,
}
use funduq_server.AgentSdk.Presenter.{Identity, presented}

abbrev pub addressed_run_metadata_key : String
addressed_run_metadata_key =
    "https://github.com/hukaichun/funduq/ext/interjection/v1/addressedRunId"

-- The keyword arguments that both sends share.
pub record Send : Type 0 where
  pub context_id : Option String
  pub task_id : Option String
  pub addressed_run_id : Option String
  pub metadata : Dict
  pub actor_chain : Option (List String)
  pub reference_task_ids : List String

abbrev texts : List String → Json
texts xs = arr (of_list (map (λ s. str s) xs))

-- `if value: d[key] = value`, for a text that may be absent
put_given : String → Option String → Dict → Dict
put_given key none d = d
put_given key (some value) d = if value == "" then d else put key (str value) d

put_chain : Option (List String) → Dict → Dict
put_chain none d = d
put_chain (some chain) d = put "actorChain" (texts chain) d

put_references : List String → Dict → Dict
put_references [] d = d
put_references (id ∷ ids) d = put "referenceTaskIds" (texts (id ∷ ids)) d

put_dict : String → Dict → Dict → Dict
put_dict key empty d = d
put_dict key bag d = put key (obj bag) d

unfoldable pub send_metadata : Send → Dict
unfolding put_chain put_given
send_metadata args =
    put_given addressed_run_metadata_key args.addressed_run_id
      (put_chain args.actor_chain args.metadata)

unfoldable pub send_message : String → String → Send → Dict
unfolding put_references put_given
send_message message_id message_text args = put_given "taskId" args.task_id (
    put_given "contextId" args.context_id (
      put_references args.reference_task_ids (
        dict (
          ("messageId", str message_id)
          ∷ ("role", str "ROLE_USER")
          ∷ ("parts", arr (of_list (obj (dict (("text", str message_text) ∷ [])) ∷ [])))
          ∷ []))))

-- `_send_message_params`
unfoldable pub send_message_params : String → String → Send → Dict
unfolding send_metadata send_message put_dict
send_message_params message_id message_text args =
    put_dict "metadata" (send_metadata args)
      (dict (("message", obj (send_message message_id message_text args)) ∷ []))

unfoldable pub rpc_body : String → String → Dict → Dict
rpc_body request_id method params = dict (
    ("jsonrpc", str "2.0")
    ∷ ("id", str request_id)
    ∷ ("method", str method)
    ∷ ("params", obj params)
    ∷ [])

put_history : Option ℤ → Dict → Dict
put_history none d = d
put_history (some n) d = put "historyLength" (int n) d

put_immediately : Bool → Dict → Dict
put_immediately false d = d
put_immediately true d = put "returnImmediately" (bool true) d

-- the parameters of `call_agent`
unfoldable pub call_params : Dict → Bool → Option ℤ → Dict
unfolding put_history put_immediately put_dict
call_params params return_immediately history_length =
    put_dict "configuration" (put_history history_length (put_immediately return_immediately empty))
      params

-- the parameters of `get_task`
unfoldable pub get_task_params : String → Option ℤ → Dict
unfolding put_history
get_task_params task_id history_length =
    put_history history_length (dict (("id", str task_id) ∷ []))

unfoldable pub result_of : (Json → String) → String → Json → Dict → Result Json
result_of show method null payload = ok (get "result" payload)
result_of show method error payload =
    raise
      (record { class = ErrorClass.other; text = S.◌++◌ method (S.◌++◌ " failed: " (show error)) })

keep_result : Json → List Json → List Json
keep_result null later = later
keep_result result later = result ∷ later

-- `payload = json.loads(sse.data)`: the results that a stream gives
unfoldable pub results : List Dict → List Json
unfolding keep_result
results [] = []
results (payload ∷ rest) = keep_result (get "result" payload) (results rest)

module _ (show_int : ℤ → String) (sha256hex : String → String) (dumps : Json → String)
    (show : Json → String) where
  -- What `_rpc` and the two streams send: the bytes of the body with the presenter's header, made
  -- once; then the end of the call, with what the door answered to them.
  abbrev pub Wire : Type 0
  Wire = String × Option (Result Json)

  -- `_rpc`. The answer's body, or the `HTTPStatusError` of `raise_for_status`, is the door's.
  unfoldable pub rpc :
      (Wire → Result Dict) → String → String → Dict → Option Identity → Bool → ℤ → Result Json
  unfolding presented result_of rpc_body
  rpc door request_id method params identity actor_chain_present timestamp = do
    wire ←
        presented show_int sha256hex dumps (obj (rpc_body request_id method params)) identity
          actor_chain_present timestamp
    payload ← door wire
    result_of show method (get "error" payload) payload

  unfoldable pub call_agent :
      (Wire → Result Dict)
      → String
      → String
      → String
      → Send
      → Bool
      → Option ℤ
      → Option Identity
      → ℤ
      → Result Json
  call_agent door request_id message_id message_text args return_immediately history_length identity
        timestamp =
      rpc door request_id "SendMessage"
        (call_params (send_message_params message_id message_text args) return_immediately
          history_length)
        identity (is_some args.actor_chain) timestamp

  unfoldable pub get_task :
      (Wire → Result Dict) → String → String → Option ℤ → Option Identity → ℤ → Result Json
  get_task door request_id task_id history_length identity timestamp =
      rpc door request_id "GetTask" (get_task_params task_id history_length) identity false
        timestamp

  -- A stream's door answers with the events that are taken of it.
  unfoldable pub call_agent_streaming :
      (Wire → Result (List Dict))
      → String
      → String
      → String
      → Send
      → Option Identity
      → ℤ
      → Result (List Json)
  unfolding presented
  call_agent_streaming door request_id message_id message_text args identity timestamp = do
    wire ←
        presented show_int sha256hex dumps
          (obj (
            rpc_body request_id "SendStreamingMessage"
              (send_message_params message_id message_text args)))
          identity (is_some args.actor_chain) timestamp
    events ← door wire
    ok (results events)

  unfoldable pub resubscribe_task :
      (Wire → Result (List Dict)) → String → String → Option Identity → ℤ → Result (List Json)
  unfolding presented
  resubscribe_task door request_id task_id identity timestamp = do
    wire ←
        presented show_int sha256hex dumps
          (obj (rpc_body request_id "SubscribeToTask" (dict (("id", str task_id) ∷ [])))) identity
          false timestamp
    events ← door wire
    ok (results events)
