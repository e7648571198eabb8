-- ===== src/ApiA2a.antt =====
-- souk_server/api_a2a.py: `SoukA2ARequestHandler`, the gateway's part of the A2A door. What it
-- inherits is the core package's handler, the record `Upstream`. A call awaits several reads of
-- the core, of which `at 0`, `at 1` and so on are the states. `key` is the answer of
-- `_presenter_key` for the request.
pub mod Visibility
pub mod Asks
use Prim.Native.String.{◌++◌}
use funduq_server.Prelude.{
  ℕ, suc, String, Bool, true, false, not, Option, none, some, List, [], ◌∷◌, map, ◌==◌,
  if◌then◌else◌, Result, ok, raise, Error, ErrorClass, agent_not_found, presenter_required,
  thread_queue_full, task_not_found,
}
use funduq_server.Text.{sorted, rstrip_slash}
use funduq_server.Json.{Json, str, arr, of_list, Dict, put}
use funduq_server.Funduq.{Funduq, AgentRef}
use funduq_server.Reads.{may_read}

-- `a2a_pb2.Task`, as far as it is read or written here: `metadata` are the entries beneath the key
-- `funduq`.
pub record Task : Type 0 where
  pub id : String
  pub context_id : String
  pub metadata : Dict

pub data Sent : Type 0 where
  task : Task → Sent
  message : Json → Sent

-- A stream of events, and the exception that ends it, if one does.
pub record EventStream : Type 0 where
  pub events : List Json
  pub ending : Option Error

pub record Page : Type 0 where
  pub tasks : List Task
  pub next_page_token : String
  pub page_size : ℕ
  pub total_size : ℕ

-- The core and its `A2ARequestHandler`; `get_run` gives the thread of a run.
pub record Upstream (S : Type 0) : Type 0 where
  pub lineage : S → String → List String
  pub get_run_events : S → String → List Json
  pub open_asks : List Json → List String
  pub get_run : S → String → Option String
  pub on_message_send : S → Json → Result Sent
  pub on_message_send_stream : S → Json → EventStream
  pub on_get_task : S → Json → Result (Option Task)
  pub on_cancel_task : S → Json → Result (Option Task)
  pub on_subscribe_to_task : S → String → EventStream
  pub on_list_tasks : S → String → Result Page

-- What leaves a handler: the exception itself, or a Starlette `HTTPException`.
pub data Escaped : Type 0 where
  same : Error → Escaped
  http : ℕ → String → Option String → Escaped

escape_class : ErrorClass → Error → Escaped
escape_class agent_not_found e = http 404 e.text none
escape_class presenter_required e = http 401 e.text none
escape_class thread_queue_full e =
    http 429 (e.text ++ " — retry after a moment; the request was not accepted") (some "1")
escape_class _ e = same e

-- `_escape`
unfoldable pub escape : Error → Escaped
unfolding escape_class
escape e = escape_class e.class e

-- `_interfaces`: the URL of the one interface, over `provider_fingerprint`
unfoldable pub interface_url : (String → String) → String → AgentRef → String
unfolding rstrip_slash
interface_url provider_fingerprint public_http_url agent =
    rstrip_slash public_http_url
    ++ ("/a2a/" ++ (provider_fingerprint agent.provider_key ++ ("/" ++ (agent.name ++ "/rpc"))))

pub data Outcome (A : Type 0) : Type 0 where
  gives : A → Outcome A
  throws : Escaped → Outcome A

last_run : List String → Option String
last_run [] = none
last_run (run ∷ []) = some run
last_run (run ∷ next ∷ rest) = last_run (next ∷ rest)

-- `{**funduq_metadata_of(task), …: sorted(asks)}`, if there are asks
with_asks : Task → List String → Task
with_asks t [] = t
with_asks t (ask ∷ asks) = record t {
  metadata = put "outstandingAsks" (arr (of_list (map str (sorted (ask ∷ asks))))) t.metadata;
}

abbrev pub no_task : String → EventStream
no_task id = record {
  events = [];
  ending =
      some (record { class = task_not_found; text = "no task '" ++ (id ++ "' for this agent") });
}

abbrev pub empty_page : Page
empty_page = record { tasks = []; next_page_token = ""; page_size = 0; total_size = 0 }

module _ {S : Type 0} (up : Upstream S) where
  annotate_run : S → Task → Option String → Task
  unfolding with_asks
  annotate_run s t none = t
  annotate_run s t (some run) = with_asks t (up.open_asks (up.get_run_events s run))

  -- `_annotate_asks`
  unfoldable pub annotate_asks : (ℕ → S) → Option Task → Option Task
  unfolding annotate_run last_run
  annotate_asks at none = none
  annotate_asks at (some t) = some (annotate_run (at 1) t (last_run (up.lineage (at 0) t.id)))

  annotate_sent : (ℕ → S) → Sent → Sent
  unfolding annotate_run last_run
  annotate_sent at (task t) = task (annotate_run (at 1) t (last_run (up.lineage (at 0) t.id)))
  annotate_sent at (message m) = message m

  unfoldable pub on_message_send : (ℕ → S) → Json → Outcome Sent
  unfolding annotate_sent
  on_message_send at params = elim (up.on_message_send (at 0) params) [
    | ok sent ↦ gives (annotate_sent (λ n. at (suc n)) sent)
    | raise e ↦ throws (escape e)
  ]

  escaped_end : Option Error → Option Escaped
  escaped_end none = none
  escaped_end (some e) = some (escape e)

  unfoldable pub on_message_send_stream : S → Json → List Json × Option Escaped
  unfolding escaped_end
  on_message_send_stream s params =
      let stream = up.on_message_send_stream s params in (stream.events, escaped_end stream.ending)

  unfoldable pub on_cancel_task : (ℕ → S) → Json → Result (Option Task)
  unfolding annotate_asks
  on_cancel_task at params = elim (up.on_cancel_task (at 0) params) [
    | ok t ↦ ok (annotate_asks (λ n. at (suc n)) t)
    | raise e ↦ raise e
  ]

  module _ (core : Funduq S) (key : Option String) where
    gated : (ℕ → S) → Option Task → Option Task
    unfolding annotate_asks
    gated at none = none
    gated at (some t) =
        if may_read core at t.context_id key
        then annotate_asks (λ n. at (suc (suc n))) (some t)
        else none

    gated_result : (ℕ → S) → Result (Option Task) → Result (Option Task)
    unfolding gated
    gated_result at (ok t) = ok (gated at t)
    gated_result at (raise e) = raise e

    unfoldable pub on_get_task : (ℕ → S) → Json → Result (Option Task)
    unfolding gated_result
    on_get_task at params = gated_result (λ n. at (suc n)) (up.on_get_task (at 0) params)

    subscribe : (ℕ → S) → String → Option String → EventStream
    subscribe at id none = up.on_subscribe_to_task (at 0) id
    subscribe at id (some thread_id) =
        if may_read core at thread_id key then up.on_subscribe_to_task (at 2) id else no_task id

    -- `params.id` is the task's.
    unfoldable pub on_subscribe_to_task : (ℕ → S) → String → EventStream
    unfolding subscribe
    on_subscribe_to_task at id = subscribe (λ n. at (suc n)) id (up.get_run (at 0) id)

    -- `params.context_id` is the thread's.
    unfoldable pub on_list_tasks : (ℕ → S) → String → Result Page
    on_list_tasks at context_id =
        if context_id == ""
        then up.on_list_tasks (at 0) context_id
        else if may_read core at context_id key
        then up.on_list_tasks (at 2) context_id
        else ok empty_page
