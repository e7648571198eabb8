-- ===== src/AgentSdk/Connection/Settled.antt =====
-- What becomes of the questions that are asked on a connection.
use funduq_server.Prelude.{
  String, false, ◌≡◌, ◌≢◌, refl, List, [], ◌∷◌, Result, ok, raise, Ensures, Bool-cases, inl, inr,
}
use funduq_server.Json.{Json, Dict, get}
use funduq_server.WsCommon.{is_type}
use funduq_server.AgentSdk.Queries.{Waiters, waiting, resolve_query, fail_pending_queries}
use funduq_server.AgentSdk.Queries.Tracked.{
  IsTracked, ask-IsTracked, leave-IsTracked, resolve_query-IsTracked,
  fail_pending_queries-ne-waiting,
}
use funduq_server.AgentSdk.Offers.{Runtime, offer}
use funduq_server.AgentSdk.Connection.{
  Provider, Happening, received, reported, run_ended, asked, left, read_frame, happen, happenings,
  run_connection, after_offer, after_result, or_break, thread_messages, report_event, finish_run,
}

module _ {R Run : Type 0} (runtime : Runtime R Run) (show : Json → String) (id : String) where
  abbrev Tracks : Provider R → Type 0
  Tracks p = IsTracked id p.waiters

  after_offer-Tracks :
      (p : Provider R) (o : Result (Dict × R))
      → Tracks p
      → Ensures Tracks (after_offer runtime show p o)
  unfolding after_offer
  after_offer-Tracks p (ok (frame, r)) h = h
  after_offer-Tracks p (raise error) h = tt

  after_result-Tracks :
      (p : Provider R) (o : Result Waiters)
      → Ensures (IsTracked id) o
      → Ensures Tracks (after_result runtime show p o)
  unfolding after_result
  after_result-Tracks p (ok w) h = h
  after_result-Tracks p (raise error) h = tt

  read_frame-Tracks :
      (frame : Dict) (p : Provider R) → Tracks p → Ensures Tracks (read_frame runtime show frame p)
  unfolding read_frame
  read_frame-Tracks frame p h = elim (Bool-cases (is_type "run" (get "type" frame))) [
    | inl run ↦ rw run (after_offer-Tracks p (offer runtime p.agents frame p.runtime) h)
    | inr other ↦ elim (Bool-cases (is_type "queryResult" (get "type" frame))) [
      | inl answer ↦
          rw (other, answer)
            (after_result-Tracks p (resolve_query show frame p.waiters)
              (resolve_query-IsTracked show frame id p.waiters h))
      | inr neither ↦ elim (Bool-cases (is_type "cancel" (get "type" frame))) [
        | inl cancel ↦ rw (other, neither, cancel) h
        | inr ignored ↦ rw (other, neither, ignored) h
      ]
    ]
  ]

  happen-Tracks :
      (event : Happening) (p : Provider R) → Tracks p → Ensures Tracks (happen runtime show event p)
  unfolding happen thread_messages report_event finish_run
  happen-Tracks (received frame) p h = read_frame-Tracks frame p h
  happen-Tracks (reported run_id event) p h = h
  happen-Tracks (run_ended run_id) p h = h
  happen-Tracks (asked q t limit) p h = ask-IsTracked q id p.waiters h
  happen-Tracks (left q) p h = leave-IsTracked q id p.waiters h

  or_break-Tracks :
      (p : Provider R) (next : Provider R → Provider R) (r : Result (Provider R))
      → ((p' : Provider R) → Tracks p' → Tracks (next p'))
      → Tracks p
      → Ensures Tracks r
      → Tracks (or_break runtime show p next r)
  unfolding or_break
  or_break-Tracks p next (ok p') keeps h r = keeps p' r
  or_break-Tracks p next (raise e) keeps h r = h

  happenings-Tracks :
      (events : List Happening) (p : Provider R)
      → Tracks p
      → Tracks (happenings runtime show events p)
  unfolding happenings
  happenings-Tracks [] p h = h
  happenings-Tracks (event ∷ rest) p h =
      or_break-Tracks p (happenings runtime show rest) (happen runtime show event p)
        (happenings-Tracks rest) h (happen-Tracks event p h)

  -- A question that is pending, or that is asked on the connection, is never left waiting: whatever
  -- happens, and however the connection ends, it has then an answer, a failure or was cancelled, and
  -- no question is pending any more.
  pub run_connection_settles :
      (events : List Happening) (p : Provider R)
      → IsTracked id p.waiters
      → ((run_connection runtime show events p).waiters.futures id ≢ waiting)
        × ((run_connection runtime show events p).waiters.is_pending id ≡ false)
  unfolding run_connection fail_pending_queries
  run_connection_settles events p h = (
    fail_pending_queries-ne-waiting "souk connection closed" id
        (happenings runtime show events p).waiters (happenings-Tracks events p h),
    refl,
  )
