-- ===== src/SoukClient.antt =====
-- souk-client-sdk/souk_client_sdk/client.py: the lookup of an agent by its name. The rows are the
-- body's `agents` of the answer to `GET /agents`.
pub mod Lookup
pub mod Run
use funduq_server.Prelude.{
  String, Bool, true, ◌&&◌, ◌||◌, Option, none, some, List, [], ◌∷◌, keep, ◌==◌,
}

-- `Agent`, without the fields that only stand in messages or are passed on.
pub record Agent : Type 0 where
  pub provider : String
  pub name : String
  pub provider_key : String

-- An agent, `AgentNotFound`, or `AmbiguousAgentName` with its candidates.
pub data Resolved : Type 0 where
  found : Agent → Resolved
  not_found : Resolved
  ambiguous : List Agent → Resolved

named_by : Option String → Agent → Bool
named_by none agent = true
named_by (some provider) agent = agent.provider == provider || agent.provider_key == provider

-- the test of `candidates`
unfoldable pub matches : String → Option String → Agent → Bool
unfolding named_by
matches name provider agent = agent.name == name && named_by provider agent

of_candidates : List Agent → Resolved
of_candidates [] = not_found
of_candidates (agent ∷ []) = found agent
of_candidates (agent ∷ other ∷ rest) = ambiguous (agent ∷ other ∷ rest)

-- `resolve`, on the roster
unfoldable pub resolve : List Agent → String → Option String → Resolved
unfolding of_candidates
resolve roster name provider = of_candidates (keep (matches name provider) roster)
