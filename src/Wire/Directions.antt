-- ===== src/Wire/Directions.antt =====
-- Where the docent sends a visitor, and what the sample provider makes of the same URL.
use funduq_server.Prelude.{ℕ, String, true, ◌≡◌, refl, none, some}
use funduq_server.Text.{rstrip_slash}
use funduq_server.Json.{str, get}
use funduq_server.Funduq.{AgentRef}
use funduq_server.ApiA2a.{interface_url}
use funduq_server.Docent.{Summary, Guide, describe_agent}
use funduq_server.SampleAgent.Resolve.{address_from_url}
use funduq_server.SampleAgent.Resolve.Pair.{is_plain, address_from_url-pair_url}

abbrev pub ref_of : Summary → AgentRef
ref_of agent = record { provider_key = agent.provider_key; name = agent.name }

-- The endpoint that the docent gives for an agent is the URL of the agent's interface at the A2A
-- door, and the sample provider reads in it that agent's pair, the fingerprint of its provider and
-- its name, if neither has a slash in it.
pub describe_agent-Address :
    (guide : Guide) (now : ℕ) (base : String) (agent : Summary)
    → is_plain (guide.provider_fingerprint agent.provider_key) ≡ true
    → is_plain agent.name ≡ true
    → (get "a2a_endpoint" (describe_agent guide now base agent)
        ≡ str (interface_url guide.provider_fingerprint base (ref_of agent)))
      × (address_from_url (interface_url guide.provider_fingerprint base (ref_of agent)) ≡ record {
        url = interface_url guide.provider_fingerprint base (ref_of agent);
        provider = some (guide.provider_fingerprint agent.provider_key);
        provider_key = none;
        agent_name = some agent.name;
      })
unfolding describe_agent interface_url
describe_agent-Address guide now base agent plain plain' = (
  refl,
  address_from_url-pair_url (rstrip_slash base) (guide.provider_fingerprint agent.provider_key)
      agent.name plain plain',
)
