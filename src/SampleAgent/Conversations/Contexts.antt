-- ===== src/SampleAgent/Conversations/Contexts.antt =====
-- One conversation with the agent is one conversation with each of its sub-agents.
use funduq_server.Prelude.{
  String, Bool, true, false, ◌&&◌, ◌≡◌, refl, ap, ◌∙◌, sym, eq_iff, Option, none, some, List, [],
  ◌∷◌, ◌==◌, Bool-cases, inl, inr, if◌then◌else◌,
}
use funduq_server.SampleAgent.Resolve.{given}
use funduq_server.SampleAgent.Delegate.{
  Update, begin, on_update, keep_context, or_later, call_context,
}
use funduq_server.SampleAgent.Conversations.{
  SubThreads, no_sub_threads, Came, come, all_come, context_sent,
}

-- the context that an update names
abbrev pub named : Update → Option String
named u = or_later (given u.status_context_id) (given u.artifact_context_id)

-- an update of this sub-agent on this thread
abbrev pub concerns : String → String → Came → Bool
concerns thread_id sub_name c = c.thread_id == thread_id && c.sub_name == sub_name

-- The last context that the sub-agent named on the thread.
abbrev pub last_named : String → String → List Came → Option String
last_named thread_id sub_name [] = none
last_named thread_id sub_name (c ∷ rest) =
    or_later (last_named thread_id sub_name rest)
      (if concerns thread_id sub_name c then named c.update else none)

or_later_assoc : (a b d : Option String) → or_later (or_later a b) d ≡ or_later a (or_later b d)
or_later_assoc none b d = refl
or_later_assoc (some s) b d = refl

or_later-none : (a : Option String) → or_later a none ≡ a
or_later-none none = refl
or_later-none (some s) = refl

keep_context-at :
    (sub_name : String) (id : Option String) (ids : String → Option String) (name : String)
    → keep_context sub_name id ids name
      ≡ or_later (if sub_name == name then id else none) (ids name)
unfolding keep_context
keep_context-at sub_name id ids name = elim (Bool-cases (sub_name == name)) [
  | inl same ↦ rw same (at_same id same)
  | inr other ↦ rw other (at_other id other)
]
  where
    at_same :
        (i : Option String)
        → (sub_name == name) ≡ true
        → keep_context sub_name i ids name ≡ or_later i (ids name)
    at_same none e = refl
    at_same (some x) e = rw e refl

    at_other :
        (i : Option String)
        → (sub_name == name) ≡ false
        → keep_context sub_name i ids name ≡ ids name
    at_other none e = refl
    at_other (some x) e = rw e refl

module _ (thread_id sub_name : String) where
  come-at :
      (sub_threads : SubThreads) (c : Came)
      → come sub_threads c thread_id sub_name
        ≡ or_later
            (if concerns thread_id sub_name c then named c.update else none)
            (sub_threads thread_id sub_name)
  unfolding come on_update begin
  come-at sub_threads c = elim (Bool-cases (c.thread_id == thread_id)) [
    | inl same ↦
        let e : c.thread_id ≡ thread_id = (eq_iff c.thread_id thread_id).0 same in
        rw (same, e) (keep_context-at c.sub_name (named c.update) (sub_threads thread_id) sub_name)
    | inr other ↦ rw other refl
  ]

  all_come-at :
      (sub_threads : SubThreads) (cs : List Came)
      → all_come sub_threads cs thread_id sub_name
        ≡ or_later (last_named thread_id sub_name cs) (sub_threads thread_id sub_name)
  unfolding all_come
  all_come-at sub_threads [] = refl
  all_come-at sub_threads (c ∷ rest) =
      all_come-at (come sub_threads c) rest
      ∙ ap (or_later (last_named thread_id sub_name rest)) (come-at sub_threads c)
      ∙ sym (
          or_later_assoc (last_named thread_id sub_name rest)
            (if concerns thread_id sub_name c then named c.update else none)
            (sub_threads thread_id sub_name))

-- However the runs of an agent interleave, a delegation sends the last context that the sub-agent
-- named on the thread of the run, whichever run it named it to, and none if it has named none: no
-- context goes to another sub-agent or to another thread.
pub context_sent-all_come :
    (cs : List Came) (thread_id sub_name : String)
    → context_sent (all_come no_sub_threads cs) thread_id sub_name
      ≡ last_named thread_id sub_name cs
unfolding context_sent call_context
context_sent-all_come cs thread_id sub_name =
    all_come-at thread_id sub_name no_sub_threads cs
    ∙ or_later-none (last_named thread_id sub_name cs)
