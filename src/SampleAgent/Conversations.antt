-- ===== src/SampleAgent/Conversations.antt =====
-- main.py: a run of the sample agent, from its input to what its model is given, and what it keeps
-- of a conversation from one run to the next. The adapter that runs the model is pydantic-ai's.
pub mod Contexts
use Prim.Native.String.{◌++◌}
use funduq_server.Prelude.{String, Option, none, some, List, [], ◌∷◌}
use funduq_server.Text.{rstrip_slash}
use funduq_server.Json.{Json, null, obj, Dict, get}
use funduq_server.AgentSdk.Queries.{update}
use funduq_server.SampleAgent.Resolve.{Address}
use funduq_server.SampleAgent.Delegate.{Update, begin, on_update, call_context}

-- `sub_threads`, the dict that the runs of an agent share: for a thread, what each sub-agent
-- answered on. A thread that no run has begun on has the empty dict that `setdefault` gives it.
abbrev pub SubThreads : Type 0
SubThreads = String → String → Option String

abbrev pub no_sub_threads : SubThreads
no_sub_threads thread_id name = none

-- One update that comes to a delegation in some run on the thread: the run writes to the dict of its
-- thread, which the other runs on it see at once.
pub record Came : Type 0 where
  pub thread_id : String
  pub sub_name : String
  pub address : Address
  pub update : Update

unfoldable pub come : SubThreads → Came → SubThreads
come sub_threads c =
    let call = on_update c.sub_name c.address c.update (begin (sub_threads c.thread_id) []) in
    update c.thread_id call.context_ids sub_threads

-- the updates of all the runs of the agent, in the order in which they come
unfoldable pub all_come : SubThreads → List Came → SubThreads
all_come sub_threads [] = sub_threads
all_come sub_threads (c ∷ rest) = all_come (come sub_threads c) rest

-- the context that a delegation sends where it begins now in a run on the thread:
-- `deps.sub_agent_context_ids` is the dict of that thread
unfoldable pub context_sent : SubThreads → String → String → Option String
context_sent sub_threads thread_id sub_name = call_context sub_name (sub_threads thread_id)

raw_kyok : Json → Json
raw_kyok (obj forwarded) = get "kyok" forwarded
raw_kyok _ = null

validated : (Json → Option String) → Json → Option String
validated validate null = none
validated validate raw = validate raw

-- The model of a run that its caller pays for: its base URL and its token.
pub record KyokModel : Type 0 where
  pub base_url : String
  pub api_key : String

kyok_model : String → Option String → Option KyokModel
kyok_model souk_http_url none = none
kyok_model souk_http_url (some token) =
    some (record { base_url = rstrip_slash souk_http_url ++ "/kyok/v1"; api_key = token })

-- `resolve_kyok_model`: `validate` is the token that `KyokForwardedProps` reads.
unfoldable pub resolve_kyok_model : (Json → Option String) → Dict → String → Option KyokModel
unfolding raw_kyok validated kyok_model
resolve_kyok_model validate run_input souk_http_url =
    kyok_model souk_http_url (validated validate (raw_kyok (get "forwardedProps" run_input)))

-- What is put on `combined`: an event of the adapter or a progress event, or `_DONE`.
pub data Item : Type 0 where
  event : Dict → Item
  done : Item

-- the loop of `run_stream` over `combined`, which leaves it where it gets `_DONE`
unfoldable pub yielded : List Item → List Dict
yielded [] = []
yielded (event e ∷ rest) = e ∷ yielded rest
yielded (done ∷ rest) = []
