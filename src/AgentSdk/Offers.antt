-- ===== src/AgentSdk/Offers.antt =====
-- `_offer`: a run frame, answered by one ack frame. The runtime is `funduq_provider_sdk`'s, with a
-- state `R` of its own; `agents` are the names that this provider hosts.
use Prim.Native.String.{◌++◌}
use funduq_server.Prelude.{
  String, Bool, true, false, List, [], ◌∷◌, member, if◌then◌else◌, Result, ok, raise, ErrorClass,
}
use funduq_server.Json.{Json, bool, str, Dict, lookup, or_else, dict, without, is_hashable}
use funduq_server.Funduq.{Validation, valid, invalid, Answer, taken, refusal}

pub record Runtime (R Run : Type 0) : Type 0 where
  pub validate_run : Dict → Validation Run
  pub deliver : R → Run → Answer × R
  pub cancel : R → Json → R

abbrev pub ack : Json → Bool → Dict
ack run_id accepted =
    dict (("type", str "ack") ∷ ("runId", run_id) ∷ ("accepted", bool accepted) ∷ [])

abbrev pub refusing_ack : Json → String → Dict
refusing_ack run_id reason = dict (
    ("type", str "ack")
    ∷ ("runId", run_id)
    ∷ ("accepted", bool false)
    ∷ ("reason", str reason)
    ∷ [])

unfoldable pub ack_of : Json → Answer → Dict
ack_of run_id (taken b) = ack run_id b
ack_of run_id (refusal reason) = refusing_ack run_id reason

-- `agent_name not in self.agents`, a test of a dict
unfoldable pub hosts : List String → Json → Bool
hosts agents (str name) = member name agents
hosts agents _ = false

module _ {R Run : Type 0} (runtime : Runtime R Run) where
  unfoldable pub answer_run : Json → R → Validation Run → Dict × R
  unfolding ack_of
  answer_run run_id r (invalid e) =
      (refusing_ack run_id ("frame does not validate as a DeliveredRun: " ++ e), r)
  answer_run run_id r (valid run) =
      let (verdict, r') = runtime.deliver r run in (ack_of run_id verdict, r')

  unfoldable pub hosted_offer : Bool → Dict → R → Dict × R
  unfolding answer_run
  hosted_offer false frame r = (ack (or_else (lookup "runId" frame) (str "")) false, r)
  hosted_offer true frame r =
      answer_run (or_else (lookup "runId" frame) (str "")) r
        (runtime.validate_run (without "type" frame))

  unfoldable pub offer : List String → Dict → R → Result (Dict × R)
  unfolding hosted_offer hosts
  offer agents frame r =
      let name = or_else (lookup "agentName" frame) (str "") in
      if is_hashable name
      then ok (hosted_offer (hosts agents name) frame r)
      else raise (record { class = ErrorClass.type_error; text = "unhashable type" })
