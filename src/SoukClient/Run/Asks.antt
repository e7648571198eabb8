-- ===== src/SoukClient/Run/Asks.antt =====
-- What a client may answer after a stream: the asks that the finished run still waits on.
use funduq_server.Prelude.{
  String, Bool, true, false, not, ◌&&◌, ◌||◌, ◌≡◌, refl, Option, none, some, List, [], ◌∷◌, ◌++◌,
  member, any, keep, ◌==◌, eq_iff, arith,
}
use funduq_server.Prelude.Members.{member-append, member-keep}
use funduq_server.SoukClient.Run.{
  Interrupt, Outcome, Event, run_started, tool_call_start, tool_call_result, run_finished,
  other_event, Client, Stream, or_text, append_ask, append_interrupts, interrupts_of, on_event,
  on_events, run,
}

-- what an event announces, answers, or ends
abbrev pub announces : String → Event → Bool
announces ask (tool_call_start id) = id == ask
announces ask _ = false

abbrev pub answers : String → Event → Bool
answers ask (tool_call_result id) = id == ask
answers ask _ = false

abbrev pub finishes : Event → Bool
finishes (run_finished outcome) = true
finishes _ = false

abbrev pub is_text : String → Option String → Bool
is_text ask none = false
is_text ask (some s) = s == ask && not (s == "")

-- The interrupt stands for the ask: by its tool call where that is given, else by its own id.
abbrev pub names : String → Interrupt → Bool
names ask i = is_text ask (or_text i.tool_call_id i.id)

member-append_ask :
    (ask : String) (o : Option String) (outstanding : List String)
    → member ask (append_ask o outstanding) ≡ (member ask outstanding || is_text ask o)
unfolding append_ask
member-append_ask ask none outstanding = ground arith
member-append_ask ask (some s) outstanding =
    ground (arith, member-append ask outstanding (s ∷ []), eq_iff s ask, eq_iff s "", eq_iff ask "")

member-append_interrupts :
    (ask : String) (is : List Interrupt) (outstanding : List String)
    → member ask (append_interrupts is outstanding) ≡ (member ask outstanding || any (names ask) is)
unfolding append_interrupts
member-append_interrupts ask [] outstanding = ground arith
member-append_interrupts ask (i ∷ is) outstanding = ground (
  arith,
  member-append_interrupts ask is (append_ask (or_text i.tool_call_id i.id) outstanding),
  member-append_ask ask (or_text i.tool_call_id i.id) outstanding,
)

module _ (thread_id : String) (continues_lineage : Bool) where
  on_events-append :
      (before after : List Event) (s : Stream)
      → on_events thread_id continues_lineage (before ++ after) s
        ≡ on_events thread_id continues_lineage after
            (on_events thread_id continues_lineage before s)
  unfolding on_events
  on_events-append [] after s = refl
  on_events-append (event ∷ before) after s =
      on_events-append before after (on_event thread_id continues_lineage event s)

  announced-on_events :
      (ask : String) (events : List Event) (s : Stream)
      → member ask (on_events thread_id continues_lineage events s).announced
        ≡ (member ask s.announced || any (announces ask) events)
  unfolding on_events on_event
  announced-on_events ask [] s = ground arith
  announced-on_events ask (run_started t r ∷ rest) s = announced-on_events ask rest _
  announced-on_events ask (tool_call_start id ∷ rest) s = ground (
    arith,
    announced-on_events ask rest (on_event thread_id continues_lineage (tool_call_start id) s),
    member-append ask s.announced (id ∷ []),
  )
  announced-on_events ask (tool_call_result id ∷ rest) s = announced-on_events ask rest _
  announced-on_events ask (run_finished o ∷ rest) s = announced-on_events ask rest _
  announced-on_events ask (other_event ∷ rest) s = announced-on_events ask rest _

  answered-on_events :
      (ask : String) (events : List Event) (s : Stream)
      → member ask (on_events thread_id continues_lineage events s).answered
        ≡ (member ask s.answered || any (answers ask) events)
  unfolding on_events on_event
  answered-on_events ask [] s = ground arith
  answered-on_events ask (run_started t r ∷ rest) s = answered-on_events ask rest _
  answered-on_events ask (tool_call_start id ∷ rest) s = answered-on_events ask rest _
  answered-on_events ask (tool_call_result id ∷ rest) s = ground (
    arith,
    answered-on_events ask rest (on_event thread_id continues_lineage (tool_call_result id) s),
  )
  answered-on_events ask (run_finished o ∷ rest) s = answered-on_events ask rest _
  answered-on_events ask (other_event ∷ rest) s = answered-on_events ask rest _

  -- Only the end of a run sets what the client waits for.
  asks-on_events :
      (events : List Event) (s : Stream)
      → any finishes events ≡ false
      → (on_events thread_id continues_lineage events s).client.last_outstanding_asks
        ≡ s.client.last_outstanding_asks
  unfolding on_events on_event
  asks-on_events [] s h = refl
  asks-on_events (run_started t r ∷ rest) s h = asks-on_events rest _ h
  asks-on_events (tool_call_start id ∷ rest) s h = asks-on_events rest _ h
  asks-on_events (tool_call_result id ∷ rest) s h = asks-on_events rest _ h
  asks-on_events (run_finished o ∷ rest) s h = absurd (cc)
  asks-on_events (other_event ∷ rest) s h = asks-on_events rest _ h

  asks-finished :
      (ask : String) (before : List Event) (outcome : Outcome) (after : List Event) (s : Stream)
      → any finishes after ≡ false
      → member ask
          (on_events thread_id continues_lineage
            (before ++ run_finished outcome ∷ after)
            s).client.last_outstanding_asks
        ≡ ((member ask s.announced || any (announces ask) before)
              && not (member ask s.answered || any (answers ask) before)
            || any (names ask) (interrupts_of outcome))
  unfolding on_events on_event
  asks-finished ask before outcome after s h =
      let t = on_events thread_id continues_lineage before s in
      rw
        (
          on_events-append before (run_finished outcome ∷ after) s,
          asks-on_events after (on_event thread_id continues_lineage (run_finished outcome) t) h,
        )
        (ground (
          arith,
          member-append_interrupts ask (interrupts_of outcome)
              (keep (λ a. not (member a t.answered)) t.announced),
          member-keep (λ a. not (member a t.answered)) ask t.announced,
          announced-on_events ask before s,
          answered-on_events ask before s,
        ))

-- After a stream in which a run finished, the client holds as outstanding exactly what the last
-- run to finish waits on: the tool calls announced before its end with no result before it, and the
-- interrupts of its outcome, each by its tool call or else its own id, if that is not empty.
pub run_asks :
    (thread_id ask : String) (before : List Event) (outcome : Outcome) (after : List Event)
    (c : Client)
    → any finishes after ≡ false
    → member ask (run thread_id (before ++ run_finished outcome ∷ after) c).last_outstanding_asks
      ≡ (any (announces ask) before && not (any (answers ask) before)
          || any (names ask) (interrupts_of outcome))
unfolding run
run_asks thread_id ask before outcome after c h =
    asks-finished thread_id _ ask before outcome after _ h

-- A stream in which no run finished leaves nothing to answer.
pub run_unfinished :
    (thread_id : String) (events : List Event) (c : Client)
    → any finishes events ≡ false
    → (run thread_id events c).last_outstanding_asks ≡ []
unfolding run
run_unfinished thread_id events c h = asks-on_events thread_id _ events _ h
