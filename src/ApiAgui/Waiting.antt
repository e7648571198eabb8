-- ===== src/ApiAgui/Waiting.antt =====
-- What a snapshot says of the answer that its thread is waiting for.
use funduq_server.Prelude.{
  ℕ, String, false, ◌≡◌, refl, ◌∙◌, ◌↔◌, Option, none, some, List, [], ◌∷◌, ◌==◌,
}
use mathlib.Core.Option.{some-injective}
use funduq_server.Json.{Json, Dict, lookup, put}
use funduq_server.Json.Laws.{lookup-put}
use funduq_server.ApiAgui.{
  AguiCore, LatestRun, waiting_run, with_asks, of_run, of_latest, with_outstanding_asks,
}

-- The latest run of the thread was not asked to stop, and has these asks open.
pub record Waits {S : Type 0} (core : AguiCore S) (at : ℕ → S) (thread_id : String) (value : Json)
    : Type 0 where
  pub latest : LatestRun
  pub ask : String
  pub asks : List String
  pub found : core.latest_run_for_thread (at 0) thread_id ≡ some latest
  pub uncancelled : latest.cancel_requested_by ≡ none
  pub unanswered : core.open_asks (core.get_run_events (at 1) latest.run_id) ≡ ask ∷ asks
  pub said : value ≡ waiting_run latest.run_id (ask ∷ asks)

asks_said :
    (snapshot : Dict) (run_id : String) (opens : List String) (value : Json)
    → lookup "waiting_run" snapshot ≡ none
    → lookup "waiting_run" (with_asks snapshot run_id opens) ≡ some value
    → (ask : String) × (asks : List String) × (opens ≡ ask ∷ asks)
      × (value ≡ waiting_run run_id (ask ∷ asks))
unfolding with_asks
asks_said snapshot run_id [] value lacks h = absurd (cc)
asks_said snapshot run_id (ask ∷ asks) value lacks h =
    (ask, asks, refl, some-injective value _ (sym_some h))
  where
    sym_some :
        lookup "waiting_run" (put "waiting_run" (waiting_run run_id (ask ∷ asks)) snapshot)
          ≡ some value
        → some value ≡ some (waiting_run run_id (ask ∷ asks))
    sym_some h =
        let e = lookup-put "waiting_run" "waiting_run" (waiting_run run_id (ask ∷ asks)) snapshot in
        cc

asks_kept :
    (snapshot : Dict) (run_id : String) (opens : List String) (k : String)
    → ("waiting_run" == k) ≡ false
    → lookup k (with_asks snapshot run_id opens) ≡ lookup k snapshot
unfolding with_asks
asks_kept snapshot run_id [] k ne = refl
asks_kept snapshot run_id (ask ∷ asks) k ne =
    lookup-put "waiting_run" k (waiting_run run_id (ask ∷ asks)) snapshot ∙ rw ne

module _ {S : Type 0} (core : AguiCore S) (at : ℕ → S) (thread_id : String) (snapshot : Dict) where
  latest-Waits :
      (value : Json) (o : Option LatestRun)
      → lookup "waiting_run" snapshot ≡ none
      → core.latest_run_for_thread (at 0) thread_id ≡ o
      → lookup "waiting_run" (of_latest core (at 1) snapshot o) ≡ some value
      → Waits core at thread_id value
  unfolding of_latest
  latest-Waits value none lacks found h = absurd (cc)
  latest-Waits value (some latest) lacks found h = by_cancel latest.cancel_requested_by refl h
    where
      by_cancel :
          (c : Option String)
          → latest.cancel_requested_by ≡ c
          → lookup "waiting_run" (of_run core (at 1) snapshot latest c) ≡ some value
          → Waits core at thread_id value
      by_cancel (some by) e h = absurd (unfold of_run in cc)
      by_cancel none e h =
          let (ask, asks, opens, said) =
            asks_said snapshot latest.run_id
              (core.open_asks (core.get_run_events (at 1) latest.run_id)) value lacks
              (unfold of_run in h) in
          record {
            latest = latest;
            ask = ask;
            asks = asks;
            found = found;
            uncancelled = e;
            unanswered = opens;
            said = said;
          }

  Waits-latest :
      (value : Json)
      → Waits core at thread_id value
      → lookup "waiting_run" (with_outstanding_asks core at thread_id snapshot) ≡ some value
  unfolding with_outstanding_asks of_latest of_run with_asks
  Waits-latest value w =
      rw (w.found, w.uncancelled, w.unanswered, w.said)
        (lookup-put "waiting_run" "waiting_run" (waiting_run w.latest.run_id (w.ask ∷ w.asks))
          snapshot)

  -- A snapshot of the core's, which has no key `waiting_run`, says that its thread waits for an
  -- answer exactly if the latest run of the thread was not asked to stop and has asks open; it then
  -- names that run and all of those asks, which are never none.
  pub waiting_run_iff :
      (value : Json)
      → lookup "waiting_run" snapshot ≡ none
      → (lookup "waiting_run" (with_outstanding_asks core at thread_id snapshot) ≡ some value)
        ↔ Waits core at thread_id value
  unfolding with_outstanding_asks
  waiting_run_iff value lacks = (
    latest-Waits value (core.latest_run_for_thread (at 0) thread_id) lacks refl,
    Waits-latest value,
  )
