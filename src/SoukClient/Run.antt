-- ===== src/SoukClient/Run.antt =====
-- `create_thread`, `run` and `resolution_proof`: what a client sends, and what it keeps of the
-- events that stream back. The events are those of the AG-UI schema, with their ids as texts; an
-- event of another type is only passed on. Fresh ids are arguments. The caller of the generator
-- may stop at any event, so a stream is the list of the events that were taken.
pub mod Asks
pub mod Lineage
use Prim.Native.String as S
use funduq_server.Prelude.{
  String, Bool, true, false, not, ◌&&◌, Option, none, some, List, [], ◌∷◌, ◌++◌, member, keep, ◌==◌,
  if◌then◌else◌,
}
use funduq_server.Json.{Json, null, str, arr, obj, of_list, Dict, empty, dict, put, merge}
use funduq_server.SoukClient.{Agent}

pub record Interrupt : Type 0 where
  pub tool_call_id : Option String
  pub id : Option String

-- The `outcome` of a RUN_FINISHED: of type `interrupt`, with its interrupts, or anything else.
pub data Outcome : Type 0 where
  interrupt : List Interrupt → Outcome
  other_outcome : Outcome

pub data Event : Type 0 where
  run_started : Option String → Option String → Event
  tool_call_start : String → Event
  tool_call_result : String → Event
  run_finished : Outcome → Event
  other_event : Event

-- The attributes of `SoukClient` that a run changes.
pub record Client : Type 0 where
  pub last_thread_id : Option String
  pub last_run_id : Option String
  pub last_task_id : Option String
  pub last_outstanding_asks : List String

abbrev pub new_client : Client
new_client = record {
  last_thread_id = none;
  last_run_id = none;
  last_task_id = none;
  last_outstanding_asks = [];
}

-- `agent.path`
unfoldable pub path : Agent → String
path agent = S.◌++◌ agent.provider (S.◌++◌ "/" agent.name)

-- The body of `create_thread`; an empty bag is none.
unfoldable pub create_thread_body : Dict → Dict
create_thread_body empty = empty
create_thread_body metadata = dict (("metadata", obj metadata) ∷ [])

-- `resolution_proof`, over `identity.public_key` and `identity.sign_resolution`
unfoldable pub resolution_proof :
    String → (String → List String → String) → String → List String → Dict
resolution_proof public_key sign_resolution task_id ask_ids =
    dict (("publicKey", str public_key) ∷ ("signature", str (sign_resolution task_id ask_ids)) ∷ [])

with_resolution : Option Dict → Dict → Dict
with_resolution none bag = bag
with_resolution (some proof) bag = put "resolution" (obj proof) bag

-- `{**(metadata or {}), **(forwarded_props or {})}`, with the resolution beside them
unfoldable pub caller_bag : Dict → Dict → Option Dict → Dict
unfolding with_resolution
caller_bag metadata forwarded_props resolution =
    with_resolution resolution (merge metadata forwarded_props)

bag_json : Dict → Json
bag_json empty = null
bag_json bag = obj bag

messages_of : String → String → String → List Json
messages_of id role message =
    if message == ""
    then []
    else obj (dict (("id", str id) ∷ ("role", str role) ∷ ("content", str message) ∷ [])) ∷ []

with_resume : Option (List Json) → Dict → Dict
with_resume none body = body
with_resume (some entries) body = put "resume" (arr (of_list entries)) body

-- the body of `run`
unfoldable pub run_body :
    String → String → String → String → String → Dict → Option (List Json) → Dict
unfolding bag_json messages_of with_resume
run_body thread_id run_id message_id role message bag resume = with_resume resume (
    dict (
      ("threadId", str thread_id)
      ∷ ("runId", str run_id)
      ∷ ("state", null)
      ∷ ("messages", arr (of_list (messages_of message_id role message)))
      ∷ ("tools", arr (of_list []))
      ∷ ("context", arr (of_list []))
      ∷ ("forwardedProps", bag_json bag)
      ∷ []))

-- The local variables of the loop over the events, with the client.
pub record Stream : Type 0 where
  pub announced : List String
  pub answered : List String
  pub client : Client

abbrev pub or_text : Option String → Option String → Option String
or_text none other = other
or_text (some s) other = if s == "" then other else some s

append_ask : Option String → List String → List String
append_ask none outstanding = outstanding
append_ask (some ask) outstanding =
    if ask == ""
    then outstanding
    else if member ask outstanding
    then outstanding
    else outstanding ++ ask ∷ []

-- the loop over the interrupts
unfoldable pub append_interrupts : List Interrupt → List String → List String
unfolding append_ask
append_interrupts [] outstanding = outstanding
append_interrupts (i ∷ rest) outstanding =
    append_interrupts rest (append_ask (or_text i.tool_call_id i.id) outstanding)

abbrev pub interrupts_of : Outcome → List Interrupt
interrupts_of (interrupt interrupts) = interrupts
interrupts_of other_outcome = []

abbrev or_else_text : Option String → String → Option String
or_else_text none other = some other
or_else_text (some s) other = some s

-- the body of the loop over the events
unfoldable pub on_event : String → Bool → Event → Stream → Stream
unfolding append_interrupts
on_event thread_id continues_lineage (run_started event_thread run_id) s = record s {
  client = record s.client {
    last_thread_id = or_else_text event_thread thread_id;
    last_run_id = run_id;
    last_task_id = if continues_lineage then s.client.last_task_id else run_id;
  };
}
on_event thread_id continues_lineage (tool_call_start id) s = record s {
  announced = s.announced ++ id ∷ [];
}
on_event thread_id continues_lineage (tool_call_result id) s = record s {
  answered = id ∷ s.answered;
}
on_event thread_id continues_lineage (run_finished outcome) s = record s {
  client = record s.client {
    last_outstanding_asks =
        append_interrupts (interrupts_of outcome)
          (keep (λ ask. not (member ask s.answered)) s.announced);
  };
}
on_event thread_id continues_lineage other_event s = s

unfoldable pub on_events : String → Bool → List Event → Stream → Stream
on_events thread_id continues_lineage [] s = s
on_events thread_id continues_lineage (event ∷ rest) s =
    on_events thread_id continues_lineage rest (on_event thread_id continues_lineage event s)

is_thread : String → Option String → Bool
is_thread thread_id none = false
is_thread thread_id (some last) = thread_id == last

leaves_none : List String → Bool
leaves_none [] = true
leaves_none (ask ∷ asks) = false

unfoldable pub continues : String → Client → Bool
unfolding is_thread leaves_none
continues thread_id c =
    not (leaves_none c.last_outstanding_asks) && is_thread thread_id c.last_thread_id

-- `run`, once its request was answered: the client after the events that its caller took
unfoldable pub run : String → List Event → Client → Client
unfolding on_events continues
run thread_id events c =
    (on_events thread_id (continues thread_id c) events (record {
      announced = [];
      answered = [];
      client = record c { last_thread_id = some thread_id; last_outstanding_asks = [] };
    })).client
