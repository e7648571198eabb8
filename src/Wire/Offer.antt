-- ===== src/Wire/Offer.antt =====
-- A run that the core offers, answered by the provider's SDK, and its verdict back at the core.
use funduq_server.Prelude.{
  String, Bool, true, false, ◌≡◌, refl, ap, ◌∙◌, none, some, List, Result, ok, member, ◌>>=◌, ◌==◌,
  if◌then◌else◌, Bool-cases, inl, inr,
}
use Prim.Native.String.{◌++◌}
use funduq_server.Json.{str, obj, Dict, entry, empty, lookup, merge, without}
use funduq_server.Json.Frames.{IsDistinct, without-merge, lookup-merge_one}
use funduq_server.Funduq.{
  Funduq, Contract, Validation, valid, invalid, Answer, taken, refusal, Verdict,
}
use funduq_server.WsCommon.{text, parse_frame}
use funduq_server.WsProvider.Link.{run_frame}
use funduq_server.WsProvider.Verdict.{read_verdict, parse_verdict, answer_of}
use funduq_server.WsProvider.Socket.{Conn, read_message, kind_of}
use funduq_server.AgentSdk.Offers.{Runtime, ack_of, offer, hosts, hosted_offer, answer_run}

-- What the gateway makes of an answer of the runtime's: a refusal with no reason is a plain no.
abbrev pub heard : Answer → Answer
heard (taken b) = taken b
heard (refusal reason) = if reason == "" then taken false else refusal reason

module _ {S : Type 0} (core : Funduq S) (contract : Contract) where
  read-ack :
      (run_id : String) (answer : Answer) (conn : Conn S)
      → contract.validate_verdict (read_verdict (ack_of (str run_id) answer)) ≡ valid tt
      → read_message core contract (text (some (obj (ack_of (str run_id) answer)))) conn
        ≡ record conn {
          core = core.answer_offer conn.core (str run_id) (heard answer) conn.link.public_key;
        }
  unfolding read_message parse_frame kind_of parse_verdict read_verdict answer_of ack_of
  read-ack run_id (taken true) conn h = rw h
  read-ack run_id (taken false) conn h = rw h
  read-ack run_id (refusal reason) conn h = elim (Bool-cases (reason == "")) [
    | inl blank ↦ rw (blank, rw blank at h)
    | inr given ↦ rw (given, rw given at h)
  ]

module _ {R Run : Type 0} (runtime : Runtime R Run) where
  validated : Validation Run → R → Answer × R
  validated (invalid e) r = (refusal ("frame does not validate as a DeliveredRun: " ++ e), r)
  validated (valid run) r = runtime.deliver r run

  decided : Bool → Dict → R → Answer × R
  unfolding validated
  decided true run r = validated (runtime.validate_run run) r
  decided false run r = (taken false, r)

  -- What the provider decides about a run: a name that it does not host is declined, a run that its
  -- model refuses is refused for good, and else the runtime says.
  unfoldable pub decision : List String → String → Dict → R → Answer × R
  unfolding decided
  decision agents name run r = decided (member name agents) run r

  answer_run-validated :
      (run_id : String) (r : R) (checked : Validation Run)
      → answer_run runtime (str run_id) r checked
        ≡ (ack_of (str run_id) (validated checked r).0, (validated checked r).1)
  unfolding answer_run validated ack_of
  answer_run-validated run_id r (invalid e) = refl
  answer_run-validated run_id r (valid run) = refl

  hosted_offer-decision :
      (hosted : Bool) (frame run : Dict) (run_id : String) (r : R)
      → lookup "runId" frame ≡ some (str run_id)
      → without "type" frame ≡ run
      → hosted_offer runtime hosted frame r
        ≡ (ack_of (str run_id) (decided hosted run r).0, (decided hosted run r).1)
  unfolding hosted_offer decided ack_of
  hosted_offer-decision false frame run run_id r id rest = rw id
  hosted_offer-decision true frame run run_id r id rest =
      rw (id, rest) (answer_run-validated run_id r (runtime.validate_run run))

  offer-decision :
      (agents : List String) (name run_id : String) (run : Dict) (r : R)
      → IsDistinct run
      → lookup "type" run ≡ none
      → lookup "runId" run ≡ some (str run_id)
      → lookup "agentName" run ≡ some (str name)
      → offer runtime agents (run_frame run) r
        ≡ ok (ack_of (str run_id) (decision agents name run r).0, (decision agents name run r).1)
  unfolding offer decision hosts
  offer-decision agents name run_id run r distinct no_type with_id with_name =
      rw (lookup-merge_one "agentName" "type" (str "run") run distinct no_type refl, with_name)
        (ap ok (
          hosted_offer-decision (member name agents) (merge (entry "type" (str "run") empty) run)
            run run_id r
            (lookup-merge_one "runId" "type" (str "run") run distinct no_type refl ∙ with_id)
            (without-merge "type" (str "run") run distinct no_type)))

-- The frame of a run, answered by the SDK, and the answer read by the gateway.
abbrev pub offer_back :
    {S R Run : Type 0}
    → Funduq S
    → Contract
    → Runtime R Run
    → List String
    → Dict
    → R
    → Conn S
    → Result (Conn S × R)
offer_back core contract runtime agents run r conn =
    offer runtime agents (run_frame run) r >>= λ answer.
    ok (read_message core contract (text (some (obj answer.0))) conn, answer.1)

-- A run that the core offers crosses the wire and its answer comes back: the frame that the gateway
-- sends for it, answered by the provider's SDK and read by the gateway, becomes one
-- `answer_offer` of the core under the run's own id and the connection's own key, with what the
-- provider decided, except that a refusal without a reason arrives as a plain no. Nothing else
-- changes on the gateway's side, and no error frame goes out. It is asked that the contract's
-- model accepts a verdict for that run.
pub offer-heard :
    {S R Run : Type 0} (core : Funduq S) (contract : Contract) (runtime : Runtime R Run)
    (agents : List String) (name run_id : String) (run : Dict) (r : R) (conn : Conn S)
    → IsDistinct run
    → lookup "type" run ≡ none
    → lookup "runId" run ≡ some (str run_id)
    → lookup "agentName" run ≡ some (str name)
    → ((v : Verdict) → v.id ≡ str run_id → contract.validate_verdict v ≡ valid tt)
    → offer_back core contract runtime agents run r conn
      ≡ ok (
        record conn {
          core =
              core.answer_offer conn.core
                (str run_id)
                (heard (decision runtime agents name run r).0)
                conn.link.public_key;
        },
        (decision runtime agents name run r).1,
      )
unfolding read_verdict ack_of
offer-heard core contract runtime agents name run_id run r conn distinct no_type id with_name
      accepts =
    let (answer, r') = decision runtime agents name run r in
    rw (offer-decision runtime agents name run_id run r distinct no_type id with_name)
      (ap (λ c. ok (c, r')) (read-ack core contract run_id answer conn (accepts _ (id_of answer))))
  where
    id_of : (answer : Answer) → (read_verdict (ack_of (str run_id) answer)).id ≡ str run_id
    id_of (taken b) = refl
    id_of (refusal reason) = refl
