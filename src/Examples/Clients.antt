-- ===== src/Examples/Clients.antt =====
-- Turns of a caller, a task read through the SDK, questions of a provider, and a sample agent.
use funduq_server.Prelude.{
  String, true, false, not, ◌&&◌, ◌||◌, ◌≡◌, ◌≢◌, refl, Option, none, some, List, [], ◌∷◌, ◌++◌,
  member, any, Result, ok, arith,
}
use funduq_server.Json.{null, pos, str, obj, empty, dict, Dict}
use funduq_server.Reads.Rule.{CanRead}
use funduq_server.SoukClient.Run.{
  Client, new_client, Event, run_started, tool_call_start, tool_call_result, run_finished,
  interrupt, run, on_event,
}
use funduq_server.SoukClient.Run.Asks.{announces, answers, names, run_asks}
use funduq_server.SoukClient.Run.Lineage.{Lineage, begun, answered, Lineage-last_task_id}
use funduq_server.AgentSdk.Queries.{waiting, no_questions}
use funduq_server.AgentSdk.Connection.{Provider, Happening, received, asked, left, run_connection}
use funduq_server.AgentSdk.Connection.Settled.{run_connection_settles}
use funduq_server.ApiA2a.Asks.{Annotated}
use funduq_server.ApiA2a.Visibility.{Shown}
use funduq_server.ApiA2a.{Task, Upstream, annotate_asks}
use funduq_server.Wire.Task.{Dispatcher, read_task, get_task-Shown}
use funduq_server.SampleAgent.History.{Message, RunInput}
use funduq_server.SampleAgent.Resolve.{Address}
use funduq_server.SampleAgent.Delegate.{Update}
use funduq_server.SampleAgent.Conversations.{Came, no_sub_threads, all_come, context_sent}
use funduq_server.SampleAgent.Conversations.Contexts.{last_named, context_sent-all_come}
use funduq_server.Examples.{Journal, toy_core, run_dict}
use funduq_server.Examples.Exchanges.{toy_runtime, show}
use funduq_server.Examples.Doors.{toy_upstream, shown_task}
use funduq_server.Examples.Callers.{signing_checks, caller}

abbrev asking : List Event
asking = tool_call_start "a1" ∷ tool_call_start "a2" ∷ tool_call_result "a1" ∷ []

abbrev approval : List Event
approval = run_finished (interrupt (record { tool_call_id = none; id = some "i1" } ∷ [])) ∷ []

run_asks_example : member "i1" (run "t1" (asking ++ approval) new_client).last_outstanding_asks ≡ (
    any (announces "i1") asking && not (any (answers "i1") asking)
    || any (names "i1") (record { tool_call_id = none; id = some "i1" } ∷ []))
run_asks_example =
    run_asks "t1" "i1" asking (interrupt (record { tool_call_id = none; id = some "i1" } ∷ [])) []
      new_client refl

-- the two asks that are still open, the answered one left out
open_asks : (run "t1" (asking ++ approval) new_client).last_outstanding_asks ≡ "a2" ∷ "i1" ∷ []
unfolding run on_event
open_asks = refl

abbrev first_turn : Client
first_turn = run "t1" (run_started (some "t1") (some "r1") ∷ (asking ++ approval)) new_client

abbrev second_turn : Client
second_turn = run "t1" (run_started (some "t1") (some "r2") ∷ (asking ++ approval)) first_turn

not_empty : first_turn.last_outstanding_asks ≢ []
unfolding run on_event
not_empty e = let bad : ◌≡◌ {A = List String} ("a2" ∷ "i1" ∷ []) [] = e in absurd (cc)

two_turns : Lineage "r1" "t1" second_turn
unfolding run on_event
two_turns =
    answered first_turn second_turn "r2" (asking ++ approval)
      (begun "t1" new_client first_turn (asking ++ approval) refl refl refl) not_empty refl refl

Lineage-last_task_id_example :
    (second_turn.last_task_id ≡ some "r1") × (second_turn.last_thread_id ≡ some "t1")
Lineage-last_task_id_example = Lineage-last_task_id two_turns

abbrev provider : Provider Journal
provider = record { agents = "helper" ∷ []; runtime = []; waiters = no_questions; outbound = [] }

abbrev questions : List Happening
questions =
    asked "q1" "t1" none ∷ asked "q2" "t1" (some (pos 2)) ∷ left "q1" ∷ received run_dict ∷ []

never_asked : provider.waiters.futures "q2" ≡ waiting → provider.waiters.is_pending "q2" ≡ true
never_asked e = absurd (cc)

run_connection_settles_example :
    ((run_connection toy_runtime show questions provider).waiters.futures "q2" ≢ waiting)
    × ((run_connection toy_runtime show questions provider).waiters.is_pending "q2" ≡ false)
run_connection_settles_example =
    run_connection_settles toy_runtime show "q2" questions provider never_asked

abbrev respond : Result (Option Task) → Dict
respond (ok (some t)) = dict (("result", str t.id) ∷ [])
respond _ = dict (("error", obj (dict (("message", str "no such task") ∷ []))) ∷ [])

abbrev dispatcher : Dispatcher
dispatcher = record { read_params = λ body. null; respond = respond }

reader : CanRead toy_core (λ n. []) "t1" (some "pk")
reader = record { thread = record { provider_key = "pk" }; exists = refl; party = ground arith }

abbrev quiet_upstream : Upstream Journal
quiet_upstream = record toy_upstream { lineage = λ s id. [] }

shown_task-Shown : Shown quiet_upstream toy_core (some "pk") (λ n. []) null shown_task
unfolding annotate_asks
shown_task-Shown = record {
  found = shown_task;
  upstream = refl;
  reader = reader;
  annotated = Annotated.no_run refl refl;
}

get_task-Shown_example :
    read_task quiet_upstream toy_core signing_checks dispatcher
      (λ n. [])
      (λ body. "{}")
      show
      "q"
      "r1"
      none
      caller
      (pos 7)
    ≡ ok (str "r1")
get_task-Shown_example =
    get_task-Shown quiet_upstream toy_core signing_checks dispatcher (λ n. []) (λ body. "{}") show
      "q" "r1" none caller (pos 7) shown_task refl refl (λ payload. refl) shown_task-Shown refl

abbrev said : String → Message
said id = record { id = some id; whole = dict (("id", str id) ∷ []) }

abbrev turn : RunInput
turn = record { thread_id = some "t1"; messages = said "m2" ∷ said "m3" ∷ []; others = empty }

abbrev scribe_address : Address
scribe_address = record {
  url = "https://souk.example/a2a/f/scribe/rpc";
  provider = some "f";
  provider_key = none;
  agent_name = some "scribe";
}

abbrev told : Option String → List String → Update
told state texts = record {
  status_context_id = some "t9";
  artifact_context_id = none;
  state = state;
  texts = texts;
  whole = empty;
}

abbrev came : String → String → Came
came thread_id sub_name = record {
  thread_id = thread_id;
  sub_name = sub_name;
  address = scribe_address;
  update = told none [];
}

abbrev two_threads : List Came
two_threads = came "t1" "scribe" ∷ came "t2" "clerk" ∷ []

context_sent-all_come_example :
    context_sent (all_come no_sub_threads two_threads) "t1" "scribe"
    ≡ last_named "t1" "scribe" two_threads
context_sent-all_come_example = context_sent-all_come two_threads "t1" "scribe"

last_named_of_scribe : last_named "t1" "scribe" two_threads ≡ some "t9"
last_named_of_scribe = refl

last_named_of_clerk : last_named "t1" "clerk" two_threads ≡ none
last_named_of_clerk = refl
