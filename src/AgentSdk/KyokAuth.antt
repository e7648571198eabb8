-- ===== src/AgentSdk/KyokAuth.antt =====
-- souk-agent-sdk/souk_agent_sdk/kyok_auth.py: the two headers that a provider's completion call
-- carries, and identity.py's extension of a chain. What is signed is the contract package's.
use funduq_server.Prelude.{String, List, [], ◌∷◌, Result, ok, raise, value_error}
use funduq_server.Json.{ℤ}
use funduq_server.ApiLlmBridge.{bearer}

-- `sign` with the provider's key, `hashlib.sha256`, `str` of a number, and `kyok_call_payload`.
pub record Signing : Type 0 where
  pub sign : String → String
  pub sha256hex : String → String
  pub show_int : ℤ → String
  pub kyok_call_payload : String → ℤ → String → String

-- `auth_flow`, on the `authorization` header and the body: the timestamp and the signature
unfoldable pub auth_flow : Signing → String → String → ℤ → String × String
auth_flow signing authorization content timestamp = (
  signing.show_int timestamp,
  signing.sign
      (signing.kyok_call_payload (bearer authorization) timestamp (signing.sha256hex content)),
)

-- `extend_actor_chain`
unfoldable pub extend_actor_chain : (List String → List String) → List String → Result (List String)
extend_actor_chain extend_chain [] = raise (record {
  class = value_error;
  text =
      "extend_actor_chain requires a non-empty prev_chain — use new_actor_chain to originate one";
})
extend_actor_chain extend_chain (hop ∷ hops) = ok (extend_chain (hop ∷ hops))
