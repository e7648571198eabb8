-- ===== src/Deps.antt =====
-- souk_server/deps.py: the HTTP status of each of the core's errors, and the address of an agent.
-- An exception is looked up by its own class; `KyokRejected` carries a status and maybe a refusal.
use Prim.Native.String.{◌++◌}
use funduq_server.Prelude.{
  ℕ, String, Option, none, some, [], ◌∷◌, Result, ok, raise, Error, ErrorClass, agent_not_found,
  llm_provider_not_found, thread_not_found, run_not_found, thread_ownership_mismatch,
  provider_fingerprint_taken, agent_in_use, llm_offering_in_use, invalid_registration,
  invalid_chain, presenter_required, stream_taken, invalid_cancel, invalid_resolution,
  thread_membership_required, invalid_run_input, thread_queue_full,
}
use funduq_server.Json.{Json, str, Dict, dict, put}
use funduq_server.Funduq.{AgentRef}

-- `_STATUS`
table : ErrorClass → Option ℕ
table agent_not_found = some 404
table llm_provider_not_found = some 404
table thread_not_found = some 404
table run_not_found = some 404
table thread_ownership_mismatch = some 409
table provider_fingerprint_taken = some 409
table agent_in_use = some 409
table llm_offering_in_use = some 409
table invalid_registration = some 401
table invalid_chain = some 401
table presenter_required = some 401
table stream_taken = some 409
table invalid_cancel = some 401
table invalid_resolution = some 401
table thread_membership_required = some 403
table invalid_run_input = some 400
table thread_queue_full = some 429
table _ = none

or_500 : Option ℕ → ℕ
or_500 none = 500
or_500 (some status) = status

-- `_STATUS.get(type(exc), 500)`
unfoldable pub status_of : ErrorClass → ℕ
unfolding table or_500
status_of class = or_500 (table class)

detail_text : ErrorClass → String → String
detail_text thread_not_found text = "thread '" ++ (text ++ "' not found")
detail_text invalid_chain text = "invalid actor chain: " ++ text
detail_text _ text = text

-- `_detail`
unfoldable pub detail_of : Error → String
unfolding detail_text
detail_of e = detail_text e.class e.text

pub record Answered : Type 0 where
  pub status : ℕ
  pub content : Dict

-- What a `KyokRejected` carries beside its text.
pub record Rejection : Type 0 where
  pub status : ℕ
  pub refusal : Option Json

with_refusal : Option Json → Dict → Dict
with_refusal none content = content
with_refusal (some refusal) content = put "error" refusal content

-- `handle` of `install_error_handlers`
unfoldable pub handle : Error → Option Rejection → Answered
unfolding status_of detail_of with_refusal
handle e none = record {
  status = status_of e.class;
  content = dict (("detail", str (detail_of e)) ∷ []);
}
handle e (some rejection) = record {
  status = rejection.status;
  content = with_refusal rejection.refusal (dict (("detail", str (detail_of e)) ∷ []));
}

found_ref : String → String → Option AgentRef → Result AgentRef
found_ref provider name none = raise (record {
  class = agent_not_found;
  text = "no agent '" ++ (name ++ ("' under provider '" ++ (provider ++ "'")));
})
found_ref provider name (some found) =
    ok (record { provider_key = found.provider_key; name = found.name })

-- `resolve_ref`; the core's `resolve_agent` is a parameter.
unfoldable pub resolve_ref :
    {S : Type 0} → (S → String → String → Option AgentRef) → S → String → String → Result AgentRef
unfolding found_ref
resolve_ref resolve_agent s provider name = found_ref provider name (resolve_agent s provider name)
