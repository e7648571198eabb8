-- ===== src/SampleAgent/History.antt =====
-- history.py: the input of a run with the messages of its thread merged in. The input is the
-- contract's `RunAgentInput`, of which the thread and the messages are read here.
pub mod Merged
use Prim.Native.Nat.{zero}
use funduq_server.Prelude.{
  String, Bool, true, false, not, Option, none, some, List, [], ◌∷◌, ◌++◌, member, keep, ◌==◌,
  if◌then◌else◌,
}
use funduq_server.Json.{ℤ, pos, Json, Dict}

-- A message: its id, and all of it.
pub record Message : Type 0 where
  pub id : Option String
  pub whole : Dict

pub record RunInput : Type 0 where
  pub thread_id : Option String
  pub messages : List Message
  pub others : Dict

-- What `thread_messages` comes to: the thread's messages, or a `SoukQueryFailed`.
pub data Fetched : Type 0 where
  fetched : List Message → Fetched
  query_failed : Fetched

-- an id that is neither absent nor empty
abbrev pub add_id : Option String → List String → List String
add_id none ids = ids
add_id (some id) ids = if id == "" then ids else id ∷ ids

-- `{m.get("id") for m in history if m.get("id")}`
abbrev pub ids_of : List Message → List String
ids_of [] = []
ids_of (m ∷ rest) = add_id m.id (ids_of rest)

is_seen : List String → Option String → Bool
is_seen seen none = false
is_seen seen (some id) = member id seen

unfoldable pub tail_of : List Message → List Message → List Message
unfolding is_seen
tail_of history messages = keep (λ m. not (is_seen (ids_of history) m.id)) messages

merged : RunInput → Fetched → RunInput
unfolding tail_of
merged run_input query_failed = run_input
merged run_input (fetched []) = run_input
merged run_input (fetched (m ∷ history)) = record run_input {
  messages = (m ∷ history) ++ tail_of (m ∷ history) run_input.messages;
}

-- `not limit`
unfoldable pub is_off : Option ℤ → Bool
is_off none = true
is_off (some (pos zero)) = true
is_off (some n) = false

module _ (thread_messages : String → Option ℤ → Fetched) where
  asked : RunInput → Option ℤ → Option String → RunInput
  unfolding merged
  asked run_input limit none = run_input
  asked run_input limit (some id) =
      if id == "" then run_input else merged run_input (thread_messages id limit)

  linked : RunInput → Option ℤ → RunInput
  unfolding asked is_off
  linked run_input limit =
      if is_off limit then run_input else asked run_input limit run_input.thread_id

-- `with_thread_history`, on the link's `thread_messages`, if there is a link
unfoldable pub with_thread_history :
    Option (String → Option ℤ → Fetched) → RunInput → Option ℤ → RunInput
unfolding linked
with_thread_history none run_input limit = run_input
with_thread_history (some thread_messages) run_input limit = linked thread_messages run_input limit
