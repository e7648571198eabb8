-- ===== src/AgentSdk/Queries/Tracked.antt =====
-- The table of the questions that are asked: one that waits stands among the pending ones.
use funduq_server.Prelude.{String, Bool, true, false, ◌≡◌, ◌≢◌, refl, Ensures, arith, if◌then◌else◌}
use funduq_server.Json.{Json, Dict, get, null, bool, int, float, str, arr, obj}
use funduq_server.AgentSdk.Queries.{
  Waiters, Future, waiting, result, query_failed, cancelled, ask, leave, settle, resolve_query,
  fail_pending_queries, resolve_id, fail_one, abandon, outcome, is_waiting,
}

abbrev pub IsTracked : String → Waiters → Type 0
IsTracked id w = w.futures id ≡ waiting → w.is_pending id ≡ true

pub ask-IsTracked : (q id : String) (w : Waiters) → IsTracked id w → IsTracked id (ask q w)
unfolding ask
ask-IsTracked q id w h e = ground (arith, h)

abandon-ne-waiting : (f : Future) → abandon f ≢ waiting
unfolding abandon
abandon-ne-waiting waiting h = cc
abandon-ne-waiting (result j) h = cc
abandon-ne-waiting (query_failed s) h = cc
abandon-ne-waiting cancelled h = cc

pub leave-IsTracked : (q id : String) (w : Waiters) → IsTracked id w → IsTracked id (leave q w)
unfolding leave
leave-IsTracked q id w h e = ground (arith, h, abandon-ne-waiting (w.futures q))

outcome-ne-waiting :
    (show : Json → String) (error answer : Json) → outcome show error answer ≢ waiting
unfolding outcome
outcome-ne-waiting show null answer h = cc
outcome-ne-waiting show (bool b) answer h = cc
outcome-ne-waiting show (int n) answer h = cc
outcome-ne-waiting show (float n s) answer h = cc
outcome-ne-waiting show (str s) answer h = cc
outcome-ne-waiting show (arr a) answer h = cc
outcome-ne-waiting show (obj d) answer h = cc

module _ (show : Json → String) (frame : Dict) (id : String) (w : Waiters)
    (h : IsTracked id w) where
  resolved-IsTracked :
      (q : String)
      → IsTracked id (
          if w.is_pending q
          then (if is_waiting (w.futures q)
              then settle q (outcome show (get "error" frame) (get "result" frame)) w
              else w)
          else w)
  unfolding settle
  resolved-IsTracked q e =
      ground (arith, h, outcome-ne-waiting show (get "error" frame) (get "result" frame))

  resolve_id-IsTracked : (j : Json) → Ensures (IsTracked id) (resolve_id show frame j w)
  unfolding resolve_id
  resolve_id-IsTracked (str q) = resolved-IsTracked q
  resolve_id-IsTracked null = h
  resolve_id-IsTracked (bool b) = h
  resolve_id-IsTracked (int n) = h
  resolve_id-IsTracked (float n s) = h
  resolve_id-IsTracked (arr a) = tt
  resolve_id-IsTracked (obj d) = tt

  pub resolve_query-IsTracked : Ensures (IsTracked id) (resolve_query show frame w)
  unfolding resolve_query
  resolve_query-IsTracked = resolve_id-IsTracked (get "queryId" frame)

fail_one-ne-waiting :
    (reason : String) (pending : Bool) (f : Future)
    → (f ≡ waiting → pending ≡ true)
    → fail_one reason pending f ≢ waiting
unfolding fail_one
fail_one-ne-waiting reason true waiting h e = cc
fail_one-ne-waiting reason true (result j) h e = cc
fail_one-ne-waiting reason true (query_failed s) h e = cc
fail_one-ne-waiting reason true cancelled h e = cc
fail_one-ne-waiting reason false waiting h e = let bad = h refl in cc
fail_one-ne-waiting reason false (result j) h e = cc
fail_one-ne-waiting reason false (query_failed s) h e = cc
fail_one-ne-waiting reason false cancelled h e = cc

pub fail_pending_queries-ne-waiting :
    (reason id : String) (w : Waiters)
    → IsTracked id w
    → (fail_pending_queries reason w).futures id ≢ waiting
unfolding fail_pending_queries
fail_pending_queries-ne-waiting reason id w h =
    fail_one-ne-waiting reason (w.is_pending id) (w.futures id) h
