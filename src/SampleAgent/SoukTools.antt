-- ===== src/SampleAgent/SoukTools.antt =====
-- souk_tools.py: what the sample provider's model is told of the agents of a souk. The rows are those
-- of the body of `GET /agents`; a failed request is the exception that it raises.
pub mod Choice
use Prim.Native.String.{◌++◌}
use funduq_server.Prelude.{
  ℕ, ◌-◌, String, Bool, true, false, ◌&&◌, ◌||◌, Option, none, some, List, [], ◌∷◌, keep, map,
  length, ◌==◌, ltb, if◌then◌else◌, Result, ok, raise,
}
use funduq_server.Prelude as P
use funduq_server.Prelude.Decimal.{decimal}

pub record AgentRow : Type 0 where
  pub name : String
  pub provider_key : String
  pub fingerprint : String
  pub provider_name : Option String
  pub description : Option String
  pub online : Bool

-- `text or other`
or_else : Option String → String → String
or_else none other = other
or_else (some text) other = if text == "" then other else text

-- `between.join(texts)`
unfoldable pub join : String → List String → String
join between [] = ""
join between (text ∷ []) = text
join between (text ∷ next ∷ rest) = text ++ (between ++ join between (next ∷ rest))

status_of : Bool → String
status_of true = "online"
status_of false = "offline"

row_line : AgentRow → String
unfolding or_else status_of
row_line agent =
    "- "
    ++ (agent.name
        ++ (" @ "
            ++ (or_else agent.provider_name agent.fingerprint
                ++ (" ("
                    ++ (status_of agent.online
                        ++ (", provider="
                            ++ (agent.fingerprint
                                ++ ("): " ++ or_else agent.description "(no description)"))))))))

listing : List AgentRow → String
unfolding join row_line
listing [] = "No agents are currently registered on this souk."
listing (agent ∷ rest) = join "\n" (map row_line (agent ∷ rest))

unfoldable pub list_souk_agents : Bool → Result (List AgentRow) → String
unfolding listing
list_souk_agents include_offline (raise e) = "Error listing souk agents: " ++ e.text
list_souk_agents true (ok agents) = listing agents
list_souk_agents false (ok agents) = listing (keep (λ a. a.online) agents)

unfoldable pub is_match : String → String → AgentRow → Bool
is_match agent_name provider a =
    a.name == agent_name
    && (provider == "" || (provider == a.provider_key || provider == a.fingerprint))

-- The agent whose card is fetched, or the answer at once.
pub data Chosen : Type 0 where
  asked : AgentRow → Chosen
  told : String → Chosen

stall_of : AgentRow → String
unfolding or_else
stall_of a = or_else a.provider_name "unnamed" ++ (" (provider=" ++ (a.fingerprint ++ ")"))

unfoldable pub of_matches : String → List AgentRow → Chosen
unfolding join stall_of
of_matches agent_name [] = told ("Agent '" ++ (agent_name ++ "' was not found on this souk."))
of_matches agent_name (a ∷ []) = asked a
of_matches agent_name (a ∷ b ∷ rest) = told (
    "Several stalls offer '"
    ++ (agent_name
        ++ ("': "
            ++ (join ", " (map stall_of (a ∷ b ∷ rest))
                ++ ". Ask again with the provider of the one you meant."))))

-- `get_agent_card`, up to the request for the card
unfoldable pub choose_card : String → String → Result (List AgentRow) → Chosen
unfolding of_matches is_match
choose_card agent_name provider (raise e) =
    told ("Error fetching agent card for '" ++ (agent_name ++ ("': " ++ e.text)))
choose_card agent_name provider (ok agents) =
    of_matches agent_name (keep (is_match agent_name provider) agents)

unfoldable pub card_url : String → AgentRow → String
card_url souk_http_url a =
    souk_http_url
    ++ ("/a2a/" ++ (a.fingerprint ++ ("/" ++ (a.name ++ "/.well-known/agent-card.json"))))

-- The tool's argument is one of these three.
pub data Category : Type 0 where
  all online offline : Category

shows_online : Category → Bool
shows_online all = true
shows_online online = true
shows_online offline = false

online_line : Category → List AgentRow → List String
unfolding join shows_online
online_line category online_agents =
    if ltb 0 (length online_agents) && shows_online category
    then ("- **Currently Online**: " ++ join ", " (map (λ a. a.name) online_agents)) ∷ []
    else []

unfoldable pub get_souk_stats : String → Category → Result (List AgentRow) → String
unfolding join online_line decimal
get_souk_stats souk_http_url category (raise e) = "Error fetching souk statistics: " ++ e.text
get_souk_stats souk_http_url category (ok agents) =
    let online_agents = keep (λ a. a.online) agents in
    join "\n" (
      P.◌++◌
        ("### Souk Platform Real-time Status"
          ∷ ("- **Gateway Connection**: Connected (" ++ (souk_http_url ++ ")"))
          ∷ ("- **Total Registered Agents**: " ++ decimal (length agents))
          ∷ ("- **Online Agents**: " ++ decimal (length online_agents))
          ∷ ("- **Offline Agents**: " ++ decimal (length agents - length online_agents))
          ∷ [])
        (online_line category online_agents))
