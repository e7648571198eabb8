-- ===== src/AgentSdk/Connection.antt =====
-- `_run_connection` after the handshake, with what the runs of this provider do meanwhile.
pub mod Settled
use funduq_server.Prelude.{String, Option, List, [], ◌∷◌, ◌++◌, Result, ok, raise, if◌then◌else◌}
use funduq_server.Json.{ℤ, Json, str, Dict, dict, get}
use funduq_server.WsCommon.{is_type}
use funduq_server.AgentSdk.Queries.{
  Waiters, query_frame, ask, leave, resolve_query, fail_pending_queries,
}
use funduq_server.AgentSdk.Offers.{Runtime, offer}

pub record Provider (R : Type 0) : Type 0 where
  pub agents : List String
  pub runtime : R
  pub waiters : Waiters
  pub outbound : List Dict

module _ {R : Type 0} where
  -- `report_event`, on the event as `dump_event` makes it
  unfoldable pub report_event : String → Json → Provider R → Provider R
  report_event run_id event p = record p {
    outbound =
        p.outbound
        ++ dict (("type", str "event") ∷ ("runId", str run_id) ∷ ("event", event) ∷ []) ∷ [];
  }

  unfoldable pub finish_run : String → Provider R → Provider R
  finish_run run_id p = record p {
    outbound = p.outbound ++ dict (("type", str "finish") ∷ ("runId", str run_id) ∷ []) ∷ [];
  }

  -- `thread_messages` up to its wait
  unfoldable pub thread_messages : String → String → Option ℤ → Provider R → Provider R
  thread_messages query_id thread_id limit p = record p {
    waiters = ask query_id p.waiters;
    outbound = p.outbound ++ query_frame query_id thread_id limit ∷ [];
  }

-- What can happen between two awaits: a frame is read, a run reports an event or its end, an agent
-- asks for a thread's messages, and the wait for an answer comes to its end.
pub data Happening : Type 0 where
  received : Dict → Happening
  reported : String → Json → Happening
  run_ended : String → Happening
  asked : String → String → Option ℤ → Happening
  left : String → Happening

module _ {R Run : Type 0} (runtime : Runtime R Run) (show : Json → String) where
  after_offer : Provider R → Result (Dict × R) → Result (Provider R)
  after_offer p (ok (frame, r)) = ok (record p { runtime = r; outbound = p.outbound ++ frame ∷ [] })
  after_offer p (raise e) = raise e

  after_result : Provider R → Result Waiters → Result (Provider R)
  after_result p (ok w) = ok (record p { waiters = w })
  after_result p (raise e) = raise e

  -- the body of the loop; what it raises breaks the connection off, to be made again
  unfoldable pub read_frame : Dict → Provider R → Result (Provider R)
  unfolding after_offer after_result
  read_frame frame p =
      if is_type "run" (get "type" frame)
      then after_offer p (offer runtime p.agents frame p.runtime)
      else if is_type "queryResult" (get "type" frame)
      then after_result p (resolve_query show frame p.waiters)
      else if is_type "cancel" (get "type" frame)
      then ok (record p { runtime = runtime.cancel p.runtime (get "runId" frame) })
      else ok p

  -- what a run of the event loop brings, while a connection stands
  unfoldable pub happen : Happening → Provider R → Result (Provider R)
  unfolding read_frame report_event finish_run thread_messages
  happen (received frame) p = read_frame frame p
  happen (reported run_id event) p = ok (report_event run_id event p)
  happen (run_ended run_id) p = ok (finish_run run_id p)
  happen (asked query_id thread_id limit) p = ok (thread_messages query_id thread_id limit p)
  happen (left query_id) p = ok (record p { waiters = leave query_id p.waiters })

  or_break : Provider R → (Provider R → Provider R) → Result (Provider R) → Provider R
  or_break p next (ok p') = next p'
  or_break p next (raise e) = p

  -- The happenings of one connection, up to its close or to the first that raises.
  unfoldable pub happenings : List Happening → Provider R → Provider R
  unfolding happen or_break
  happenings [] p = p
  happenings (h ∷ rest) p = or_break p (happenings rest) (happen h p)

  -- With the `finally`: the questions asked of this connection die with it.
  unfoldable pub run_connection : List Happening → Provider R → Provider R
  unfolding happenings
  run_connection happened p =
      let p' = happenings happened p in
      record p' { waiters = fail_pending_queries "souk connection closed" p'.waiters }
