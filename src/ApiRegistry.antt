-- ===== src/ApiRegistry.antt =====
-- souk_server/api_registry.py and api_health.py: tickets, rosters and probes. A model's dump is a
-- dict; the pydantic models of the answers only name its fields.
use funduq_server.Prelude.{ℕ, String, Bool, List, map, if◌then◌else◌}
use funduq_server.Json.{str, Dict, dict, put}
use funduq_server.Prelude.{[], ◌∷◌}

-- The core's calls: a ticket is made from its state.
pub record Registry (S : Type 0) : Type 0 where
  pub identity_public_key : String
  pub issue_ticket : S → String → String × S
  pub list_agents : S → List Dict
  pub list_llm_providers : S → List Dict
  pub provider_key : Dict → String
  pub provider_fingerprint : String → String

-- `Health`, and whether the core counts itself as ready
pub record Health : Type 0 where
  pub ready : Bool
  pub facts : Dict

module _ {S : Type 0} (core : Registry S) where
  -- the body of `POST /tickets`
  unfoldable pub issue_ticket : S → String → Dict × S
  issue_ticket s public_key =
      let (ticket, s') = core.issue_ticket s public_key in
      (dict (("ticket", str ticket) ∷ ("funduqPublicKey", str core.identity_public_key) ∷ []), s')

  abbrev pub with_fingerprint : Dict → Dict
  with_fingerprint summary =
      put "fingerprint" (str (core.provider_fingerprint (core.provider_key summary))) summary

  unfoldable pub list_llm_providers : S → List Dict
  list_llm_providers s = map with_fingerprint (core.list_llm_providers s)

  -- `list_agents`, by `_roster`
  unfoldable pub list_agents : S → List Dict
  list_agents s = map with_fingerprint (core.list_agents s)

-- `readiness`: the status and the body
unfoldable pub readiness : Health → ℕ × Dict
readiness health = (if health.ready then 200 else 503, health.facts)
