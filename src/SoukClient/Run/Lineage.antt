-- ===== src/SoukClient/Run/Lineage.antt =====
-- The task of a conversation: the run that began it, over any number of answered pauses.
use funduq_server.Prelude.{
  String, Bool, true, false, not, ◌&&◌, ◌≡◌, refl, ◌∙◌, ap, Option, some, List, [], ◌∷◌, any, ◌≢◌,
  eq_refl, if◌then◌else◌,
}
use funduq_server.SoukClient.Run.{
  Event, run_started, tool_call_start, tool_call_result, run_finished, other_event, Client, Stream,
  on_event, on_events, run, continues, is_thread, leaves_none,
}

abbrev pub starts : Event → Bool
starts (run_started t r) = true
starts _ = false

-- A client on a thread, in the lineage that the run `root` began: it began with a turn that continued
-- nothing, and each turn since was sent on its thread while there were asks to answer.
pub data Lineage (root thread : String) : Client → Type 0 where
  begun :
      (asked : String) (c c' : Client) (events : List Event)
      → continues asked c ≡ false
      → any starts events ≡ false
      → c' ≡ run asked (run_started (some thread) (some root) ∷ events) c
      → Lineage root thread c'
  answered :
      (c c' : Client) (run_id : String) (events : List Event)
      → Lineage root thread c
      → c.last_outstanding_asks ≢ []
      → any starts events ≡ false
      → c' ≡ run thread (run_started (some thread) (some run_id) ∷ events) c
      → Lineage root thread c'

module _ (thread_id : String) (continues_lineage : Bool) where
  -- Only the start of a run sets the ids.
  ids-on_events :
      (events : List Event) (s : Stream)
      → any starts events ≡ false
      → ((on_events thread_id continues_lineage events s).client.last_task_id
          ≡ s.client.last_task_id)
        × ((on_events thread_id continues_lineage events s).client.last_thread_id
            ≡ s.client.last_thread_id)
  unfolding on_events on_event
  ids-on_events [] s h = (refl, refl)
  ids-on_events (run_started t r ∷ rest) s h = absurd (cc)
  ids-on_events (tool_call_start id ∷ rest) s h = ids-on_events rest _ h
  ids-on_events (tool_call_result id ∷ rest) s h = ids-on_events rest _ h
  ids-on_events (run_finished o ∷ rest) s h = ids-on_events rest _ h
  ids-on_events (other_event ∷ rest) s h = ids-on_events rest _ h

run-ids :
    (asked thread : String) (run_id : Option String) (events : List Event) (c : Client)
    → any starts events ≡ false
    → ((run asked (run_started (some thread) run_id ∷ events) c).last_task_id
        ≡ (if continues asked c then c.last_task_id else run_id))
      × ((run asked (run_started (some thread) run_id ∷ events) c).last_thread_id ≡ some thread)
unfolding run on_events on_event
run-ids asked thread run_id events c h = ids-on_events asked (continues asked c) events _ h

continues_lem :
    (thread : String) (c : Client)
    → c.last_outstanding_asks ≢ []
    → c.last_thread_id ≡ some thread
    → continues thread c ≡ true
unfolding continues
continues_lem thread c open_asks e = rw (e) (leaves (c.last_outstanding_asks) open_asks)
  where
    leaves :
        (asks : List String)
        → asks ≢ []
        → (not (leaves_none asks) && is_thread thread (some thread)) ≡ true
    leaves [] h = absurd (h refl)
    leaves (ask ∷ asks) h = eq_refl thread

-- However often a conversation pauses and is answered on its thread, the client's task id stays the
-- id of the run that began it, and its thread the thread of that run.
pub Lineage-last_task_id :
    {root thread : String} {c : Client}
    → Lineage root thread c
    → (c.last_task_id ≡ some root) × (c.last_thread_id ≡ some thread)
Lineage-last_task_id {root} {thread} (begun asked c c' events fresh quiet e) =
    let ids = run-ids asked thread (some root) events c quiet in
    (
      ap (λ (x : Client). x.last_task_id) e
          ∙ ids.0
          ∙ ap (λ b. if b then c.last_task_id else some root) fresh,
      ap (λ (x : Client). x.last_thread_id) e ∙ ids.1,
    )
Lineage-last_task_id {root} {thread} (answered c c' run_id events before open_asks quiet e) =
    let ids = run-ids thread thread (some run_id) events c quiet in
    let ih = Lineage-last_task_id before in
    (
      ap (λ (x : Client). x.last_task_id) e
          ∙ ids.0
          ∙ ap (λ b. if b then c.last_task_id else some run_id)
              (continues_lem thread c open_asks ih.1)
          ∙ ih.0,
      ap (λ (x : Client). x.last_thread_id) e ∙ ids.1,
    )
