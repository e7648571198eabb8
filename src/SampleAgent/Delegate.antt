-- ===== src/SampleAgent/Delegate.antt =====
-- sub_agent_tool.py: `call_sub_agent`, from the address of the sub-agent to the answer that the
-- model is given. What streams back is A2A's, with its optional fields as they are read.
pub mod Verdicts
use Prim.Native.String as S
use Prim.Native.String.{◌++◌}
use funduq_server.Prelude.{
  String, Bool, true, false, Option, none, some, List, [], ◌∷◌, ◌==◌, if◌then◌else◌,
}
use funduq_server.Prelude as P
use funduq_server.Json.{Json, null, str, obj, Dict, dict, merge}
use funduq_server.AgentSdk.Queries.{update}
use funduq_server.SampleAgent.Resolve.{Address, Resolved, found, unlisted, several, given}

-- `statusUpdate` and `artifactUpdate` of one update, the texts of its parts, and all of it.
pub record Update : Type 0 where
  pub status_context_id : Option String
  pub artifact_context_id : Option String
  pub state : Option String
  pub texts : List String
  pub whole : Dict

-- The local variables of the loop, `deps.sub_agent_context_ids`, and the progress queue.
pub record Call : Type 0 where
  pub final_text : String
  pub failed : Bool
  pub pending : Bool
  pub context_ids : String → Option String
  pub progress : List Dict

abbrev opt_str : Option String → Json
opt_str none = null
opt_str (some s) = str s

unfoldable pub progress_event : String → Address → Dict → Dict
progress_event sub_name address whole = dict (
    ("type", str "CUSTOM")
    ∷ ("name", str "sub_agent_progress")
    ∷ (
      "value",
      obj (
          merge
            (dict (
              ("sub_agent", str sub_name)
              ∷ ("provider", opt_str address.provider)
              ∷ ("provider_key", opt_str address.provider_key)
              ∷ ("agent_name", opt_str address.agent_name)
              ∷ []))
            whole),
    )
    ∷ [])

abbrev pub or_later : Option String → Option String → Option String
or_later none later = later
or_later (some s) later = some s

unfoldable pub keep_context :
    String → Option String → (String → Option String) → String → Option String
keep_context sub_name none ids = ids
keep_context sub_name (some id) ids = update sub_name (some id) ids

abbrev pub is_state : String → Option String → Bool
is_state name none = false
is_state name (some state) = state == name

unfoldable pub add_texts : List String → String → String
add_texts [] text = text
add_texts (t ∷ rest) text = add_texts rest (text ++ t)

-- the body of the loop
unfoldable pub on_update : String → Address → Update → Call → Call
unfolding keep_context
on_update sub_name address u c = record {
  final_text = add_texts u.texts c.final_text;
  failed = if is_state "TASK_STATE_FAILED" u.state then true else c.failed;
  pending =
      if is_state "TASK_STATE_FAILED" u.state
      then c.pending
      else if is_state "TASK_STATE_INPUT_REQUIRED" u.state
      then true
      else c.pending;
  context_ids =
      keep_context sub_name (or_later (given u.status_context_id) (given u.artifact_context_id))
        c.context_ids;
  progress = P.◌++◌ c.progress (progress_event sub_name address u.whole ∷ []);
}

unfoldable pub on_updates : String → Address → List Update → Call → Call
on_updates sub_name address [] c = c
on_updates sub_name address (u ∷ rest) c =
    on_updates sub_name address rest (on_update sub_name address u c)

abbrev pub unavailable : String → String
unavailable sub_name =
    "(" ++ (sub_name ++ " is currently unavailable — the call failed or timed out)")

abbrev pub needs_time : String → String
needs_time sub_name =
    "("
    ++ (sub_name
        ++ " needs more time to respond — e.g. it's waiting on human approval — and hasn't resolved yet; you'll be notified once it does, no need to call it again for this)")

abbrev pub no_response : String → String
no_response sub_name = "(no response from " ++ (sub_name ++ ")")

unfoldable pub answer : String → Call → String
answer sub_name c =
    if c.failed
    then unavailable sub_name
    else if c.pending
    then needs_time sub_name
    else if c.final_text == ""
    then no_response sub_name
    else c.final_text

-- the arguments of `call_agent_streaming` that are made here: the thread that this sub-agent
-- answered on last, and the run as the reference
unfoldable pub call_context : String → (String → Option String) → Option String
call_context sub_name context_ids = context_ids sub_name

unfoldable pub reference_task_ids : Option String → List String
reference_task_ids run_id = one (given run_id)
  where
    one : Option String → List String
    one none = []
    one (some id) = id ∷ []

unreachable : String → String → String
unreachable sub_name reason = "(" ++ (sub_name ++ (" could not be reached: " ++ (reason ++ ")")))

unfoldable pub begin : (String → Option String) → List Dict → Call
begin context_ids progress = record {
  final_text = "";
  failed = false;
  pending = false;
  context_ids = context_ids;
  progress = progress;
}

-- `call_sub_agent`, with what the resolution gives and the updates that stream back; the reason is
-- the text of a `SubAgentUnresolvable`
unfoldable pub call_sub_agent :
    String
    → (Resolved → String)
    → Resolved
    → List Update
    → (String → Option String)
    → List Dict
    → String × Call
unfolding on_updates answer begin unreachable
call_sub_agent sub_name reason (found address) updates context_ids progress =
    let c = on_updates sub_name address updates (begin context_ids progress) in
    (answer sub_name c, c)
call_sub_agent sub_name reason unresolved updates context_ids progress =
    (unreachable sub_name (reason unresolved), begin context_ids progress)
