-- ===== src/WsProvider/Verdict.antt =====
-- `_parse_verdict`: an ack frame as the contract's three-valued verdict, and the answer that the
-- read loop makes of it.
use funduq_server.Prelude.{String, Bool, true, false, Option, none, some}
use funduq_server.Json.{Dict, bool, get, lookup, or_else, truthy, nonempty_str}
use funduq_server.Funduq.{
  Contract, Verdict, VerdictName, accepted, refused, declined, Validation, valid, invalid, Answer,
  taken, refusal,
}

-- `accepted` says whether the frame took the run, a missing key counting as a yes.
verdict_name : Bool → Option String → VerdictName
verdict_name true reason = accepted
verdict_name false (some reason) = refused
verdict_name false none = declined

unfoldable pub read_verdict : Dict → Verdict
unfolding verdict_name
read_verdict frame = record {
  id = get "runId" frame;
  verdict =
      verdict_name (truthy (or_else (lookup "accepted" frame) (bool true)))
        (nonempty_str (get "reason" frame));
  reason = nonempty_str (get "reason" frame);
}

checked : Verdict → Validation (Unit {0}) → Validation Verdict
checked verdict (valid _) = valid verdict
checked verdict (invalid e) = invalid e

unfoldable pub parse_verdict : Contract → Dict → Validation Verdict
unfolding checked
parse_verdict contract frame =
    checked (read_verdict frame) (contract.validate_verdict (read_verdict frame))

or_refused : Option String → String
or_refused none = "refused"
or_refused (some reason) = reason

-- `verdict.reason or "refused"`; a reason is never the empty text here.
answer_named : VerdictName → Option String → Answer
unfolding or_refused
answer_named accepted reason = taken true
answer_named declined reason = taken false
answer_named refused reason = refusal (or_refused reason)

unfoldable pub answer_of : Verdict → Answer
unfolding answer_named
answer_of verdict = answer_named verdict.verdict verdict.reason
