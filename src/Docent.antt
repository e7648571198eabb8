-- ===== src/Docent.antt =====
-- souk_server/mcp_docent.py: the read-only tools that show a visitor around. `Market` groups the
-- agents by provider, `Search` is the keyword match, `Tools` the tools and resources themselves.
-- The MCP server and its transport are not modelled: a tool is a function of what the core lists
-- at its one await.
pub mod Market
pub mod Search
pub mod Tools
pub mod Hosts
pub mod Ago
use Prim.Native.Nat.{◌/◌}
use Prim.Native.String.{◌++◌}
use Prim.Native.String as S
use funduq_server.Prelude.{
  ℕ, ◌-◌, String, Bool, ◌&&◌, Option, none, some, List, [], ◌∷◌, ◌==◌, ltb, if◌then◌else◌,
}
use funduq_server.Text.{rstrip_slash}
use funduq_server.Prelude.Decimal.{decimal}
use funduq_server.Json.{Json, null, bool, str, arr, obj, of_list, Dict, dict}

-- `funduq.models.AgentSummary`. `last_seen_at` is in microseconds since the epoch, a naive time
-- being read as UTC; `joined_at` is its `isoformat()`.
pub record Summary : Type 0 where
  pub provider_key : String
  pub name : String
  pub description : String
  pub skills : List Json
  pub online : Bool
  pub last_seen_at : ℕ
  pub joined_at : String
  pub provider_name : Option String

-- What the docent calls of other packages, and Python's `lower` and `str` of a value that is not a
-- text.
pub record Guide : Type 0 where
  pub provider_fingerprint : String → String
  pub agent_card_path : String
  pub lower : String → String
  pub show : Json → String

abbrev pub seconds_since : ℕ → ℕ → ℕ
seconds_since now last_seen_at = (now - last_seen_at) / 1000000

ago_text : ℕ → String
unfolding decimal
ago_text seconds =
    if ltb seconds 90
    then decimal seconds ++ "s ago"
    else if ltb seconds 5400
    then decimal (seconds / 60) ++ "m ago"
    else if ltb seconds 172800
    then decimal (seconds / 3600) ++ "h ago"
    else decimal (seconds / 86400) ++ "d ago"

-- `_seen_ago`, at the time `now`
unfoldable pub seen_ago : ℕ → ℕ → String
unfolding ago_text
seen_ago now last_seen_at = ago_text (seconds_since now last_seen_at)

abbrev pub opt_str : Option String → Json
opt_str none = null
opt_str (some s) = str s

module _ (guide : Guide) (now : ℕ) (public_base_url : String) where
  unfoldable pub describe_agent : Summary → Dict
  unfolding seen_ago rstrip_slash
  describe_agent agent =
      let base = rstrip_slash public_base_url in
      let fingerprint = guide.provider_fingerprint agent.provider_key in
      dict (
        ("provider_key", str agent.provider_key)
        ∷ ("name", str agent.name)
        ∷ ("description", str agent.description)
        ∷ ("skills", arr (of_list agent.skills))
        ∷ ("online", bool agent.online)
        ∷ ("last_seen", str (seen_ago now agent.last_seen_at))
        ∷ ("listed_since", str agent.joined_at)
        ∷ (
          "provider",
          obj (
              dict (
                ("public_key", str agent.provider_key)
                ∷ ("fingerprint", str fingerprint)
                ∷ ("storefront_name", opt_str agent.provider_name)
                ∷ [])),
        )
        ∷ (
          "a2a_endpoint",
          str (base ++ ("/a2a/" ++ (fingerprint ++ ("/" ++ (agent.name ++ "/rpc"))))),
        )
        ∷ (
          "agent_card_url",
          str (
              base ++ ("/a2a/" ++ (fingerprint ++ ("/" ++ (agent.name ++ guide.agent_card_path))))),
        )
        ∷ [])
