-- ===== src/SampleAgent/Delegate/Verdicts.antt =====
-- What the model is told of a delegation, by what came back.
use funduq_server.Prelude.{
  String, Bool, true, false, ◌||◌, ◌≡◌, refl, List, [], ◌∷◌, any, if◌then◌else◌, ◌==◌, arith,
  Option, none, some, eq_iff,
}
use funduq_server.Json.{Dict}
use funduq_server.SampleAgent.Resolve.{Address, Resolved, found}
use funduq_server.SampleAgent.Delegate.{
  Update, Call, is_state, on_update, on_updates, call_sub_agent, unavailable, needs_time,
  no_response, answer, add_texts, begin,
}

abbrev pub fails : Update → Bool
fails u = is_state "TASK_STATE_FAILED" u.state

abbrev pub pauses : Update → Bool
pauses u = is_state "TASK_STATE_INPUT_REQUIRED" u.state

-- all texts of the updates, in order
abbrev pub all_texts : List Update → String → String
all_texts [] text = text
all_texts (u ∷ rest) text = all_texts rest (add_texts u.texts text)

module _ (sub_name : String) (address : Address) where
  failed-on_updates :
      (us : List Update) (c : Call)
      → (on_updates sub_name address us c).failed ≡ (c.failed || any fails us)
  unfolding on_updates on_update
  failed-on_updates [] c = ground arith
  failed-on_updates (u ∷ us) c =
      ground (arith, failed-on_updates us (on_update sub_name address u c))

  final_text-on_updates :
      (us : List Update) (c : Call)
      → (on_updates sub_name address us c).final_text ≡ all_texts us c.final_text
  unfolding on_updates on_update
  final_text-on_updates [] c = refl
  final_text-on_updates (u ∷ us) c = final_text-on_updates us (on_update sub_name address u c)

  not_both :
      (o : Option String)
      → is_state "TASK_STATE_INPUT_REQUIRED" o ≡ true
      → is_state "TASK_STATE_FAILED" o ≡ false
  not_both none h = refl
  not_both (some s) h =
      let e : s ≡ "TASK_STATE_INPUT_REQUIRED" = (eq_iff s "TASK_STATE_INPUT_REQUIRED").0 h in
      rw e refl

  pending-on_updates :
      (us : List Update) (c : Call)
      → (on_updates sub_name address us c).pending ≡ (c.pending || any pauses us)
  unfolding on_updates on_update
  pending-on_updates [] c = ground arith
  pending-on_updates (u ∷ us) c =
      ground (arith, not_both u.state, pending-on_updates us (on_update sub_name address u c))

-- The model is told that the sub-agent is unavailable exactly if any update failed; else that it
-- needs time if any update paused; else all the texts that came back, in order, or that there were
-- none. Where an update failed or paused stands among the others makes no difference.
pub call_sub_agent-answer :
    (sub_name : String) (reason : Resolved → String) (address : Address) (updates : List Update)
    (context_ids : String → Option String) (progress : List Dict)
    → (call_sub_agent sub_name reason (found address) updates context_ids progress).0 ≡ (
        if any fails updates
        then unavailable sub_name
        else if any pauses updates
        then needs_time sub_name
        else if all_texts updates "" == ""
        then no_response sub_name
        else all_texts updates "")
unfolding call_sub_agent answer begin
call_sub_agent-answer sub_name reason address updates context_ids progress =
    let c = begin context_ids progress in
    rw
      (
        failed-on_updates sub_name address updates c,
        pending-on_updates sub_name address updates c,
        final_text-on_updates sub_name address updates c,
      )
      refl
