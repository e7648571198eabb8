-- ===== src/SampleAgent/History/Merged.antt =====
-- What the model is given of a conversation.
use funduq_server.Prelude.{
  String, Bool, false, not, ◌&&◌, ◌||◌, ◌≡◌, refl, Option, none, some, List, ◌++◌, member, ◌==◌,
  Bool-cases, inl, inr,
}
use funduq_server.Prelude.Members.{Distinct}
use funduq_server.Json.{ℤ}
use funduq_server.SampleAgent.History.{
  Message, RunInput, Fetched, query_failed, ids_of, is_seen, merged, linked, asked, is_off,
  with_thread_history,
}

-- The message with the id stands in the list.
abbrev pub holds : String → List Message → Bool
holds id ms = member id (ids_of ms)

-- the messages that are not stored yet
unstored : List String → Message → Bool
unstored seen m = not (is_seen seen m.id)

-- The second list has none of the first.
abbrev Apart : List String → List String → Type 0
Apart before after = (id : String) → (member id before && member id after) ≡ false

-- What is given of a thread with the messages `stored`: these first, then others; each message that
-- is stored or came with the run, by its id, and none but these; no id twice.
pub record Merges (stored : List Message) (run_input given : RunInput) : Type 0 where
  pub later : List Message
  pub stored_first : given.messages ≡ stored ++ later
  pub held :
      (id : String) → holds id given.messages ≡ (holds id stored || holds id run_input.messages)
  pub once : Distinct (ids_of given.messages)
  pub same_thread : given.thread_id ≡ run_input.thread_id
  pub same_others : given.others ≡ run_input.others

-- Where the thread cannot be read, the run goes on with its own input.
pub with_thread_history-query_failed :
    (thread_messages : String → Option ℤ → Fetched) (run_input : RunInput) (limit : Option ℤ)
    → ((id : String) → thread_messages id limit ≡ query_failed)
    → with_thread_history (some thread_messages) run_input limit ≡ run_input
unfolding with_thread_history linked asked merged
with_thread_history-query_failed thread_messages run_input limit failed =
    elim (Bool-cases (is_off limit)) [
      | inl off ↦ rw off refl
      | inr on ↦ rw on (unread run_input.thread_id)
    ]
  where
    unread : (o : Option String) → asked thread_messages run_input limit o ≡ run_input
    unread none = refl
    unread (some id) = elim (Bool-cases (id == "")) [
      | inl empty ↦ rw empty refl
      | inr named ↦ rw (named, failed id) refl
    ]
