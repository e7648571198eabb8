-- ===== src/ApiAgui.antt =====
-- souk_server/api_agui.py: the AG-UI door. The core's reads and its adapter are parameters.
pub mod Waiting
use Prim.Native.String.{◌++◌}
use funduq_server.Prelude.{
  ℕ, suc, String, Bool, true, false, Option, none, some, List, [], ◌∷◌, map, if◌then◌else◌, Result,
  ok, raise, Error, ErrorClass, agent_not_found, ◌>>=◌,
}
use funduq_server.Text.{sorted}
use funduq_server.Json.{Json, str, arr, obj, of_list, Dict, dict, put}
use funduq_server.Funduq.{AgentRef}
use funduq_server.Presenter.{Checks, presenter_key_of}

pub record LatestRun : Type 0 where
  pub run_id : String
  pub cancel_requested_by : Option String

-- What `AGUIAdapter.run` answers: a snapshot, or a stream of events.
pub data AguiResult : Type 0 where
  thread_snapshot : Dict → AguiResult
  event_stream : List Json → AguiResult

pub record AguiCore (S : Type 0) : Type 0 where
  pub latest_run_for_thread : S → String → Option LatestRun
  pub get_run_events : S → String → List Json
  pub open_asks : List Json → List String
  pub get_thread_snapshot : S → String → Option Dict
  pub get_thread_tree : S → String → Option Dict
  pub get_agent : S → AgentRef → Bool
  pub create_thread : S → AgentRef → Json → String × S
  pub run : S → AgentRef → Json → Option String → Result AguiResult × S

abbrev pub waiting_run : String → List String → Json
waiting_run run_id asks = obj (
    dict
      (("run_id", str run_id) ∷ ("outstanding_asks", arr (of_list (map str (sorted asks)))) ∷ []))

with_asks : Dict → String → List String → Dict
with_asks snapshot run_id [] = snapshot
with_asks snapshot run_id (ask ∷ asks) =
    put "waiting_run" (waiting_run run_id (ask ∷ asks)) snapshot

not_found : {A : Type 0} → String → Result A
not_found thread_id =
    raise (record { class = agent_not_found; text = "thread '" ++ (thread_id ++ "' not found") })

module _ {S : Type 0} (core : AguiCore S) where
  of_run : S → Dict → LatestRun → Option String → Dict
  unfolding with_asks
  of_run s snapshot latest (some by) = snapshot
  of_run s snapshot latest none =
      with_asks snapshot latest.run_id (core.open_asks (core.get_run_events s latest.run_id))

  of_latest : S → Dict → Option LatestRun → Dict
  unfolding of_run
  of_latest s snapshot none = snapshot
  of_latest s snapshot (some latest) = of_run s snapshot latest latest.cancel_requested_by

  -- `_with_outstanding_asks`, with the states of its two reads
  unfoldable pub with_outstanding_asks : (ℕ → S) → String → Dict → Dict
  unfolding of_latest
  with_outstanding_asks at thread_id snapshot =
      of_latest (at 1) snapshot (core.latest_run_for_thread (at 0) thread_id)

  snapshot_of : (ℕ → S) → String → Option Dict → Result Dict
  unfolding not_found
  snapshot_of at thread_id none = not_found thread_id
  snapshot_of at thread_id (some snapshot) = ok (with_outstanding_asks at thread_id snapshot)

  unfoldable pub get_thread_snapshot : (ℕ → S) → String → Result Dict
  unfolding snapshot_of
  get_thread_snapshot at thread_id =
      snapshot_of (λ n. at (suc n)) thread_id (core.get_thread_snapshot (at 0) thread_id)

  unfoldable pub get_thread_tree : S → String → Result Dict
  unfolding not_found
  get_thread_tree s thread_id = elim (core.get_thread_tree s thread_id) [
    | none ↦ not_found thread_id
    | some tree ↦ ok tree
  ]

  -- `_create_thread`, with the states of its read and of its act
  unfoldable pub create_thread : (ℕ → S) → AgentRef → Json → Result String × S
  create_thread at agent metadata =
      let (thread_id, s) = core.create_thread (at 1) agent metadata in
      if core.get_agent (at 0) agent then (ok thread_id, s) else (
        raise (record {
          class = agent_not_found;
          text = "agent '" ++ (agent.name ++ "' is not registered for that provider");
        }),
        at 0,
      )

  presented : S → AgentRef → Json → Result (Option String) → Result AguiResult × S
  presented s agent body (raise e) = (raise e, s)
  presented s agent body (ok presenter) = core.run s agent body presenter

  -- `_run_agent`: `raw` is the body's bytes, of which `body` is the parsed form
  unfoldable pub run_agent :
      Checks → S → AgentRef → Json → String → Option (Result Json) → Result AguiResult × S
  unfolding presented
  run_agent checks s agent body raw header =
      presented s agent body (presenter_key_of checks header raw)
