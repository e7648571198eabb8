-- ===== src/Examples/Docent.antt =====
-- A market of three agents and a visitor.
use Prim.Native.String.{◌++◌}
use funduq_server.Prelude.{
  ℕ, String, Bool, true, false, ◌≡◌, refl, none, some, List, [], ◌∷◌, keep, ok, ◌-◌,
}
use funduq_server.Json.{str, obj, arr, of_list, dict, get, int, pos}
use funduq_server.Docent.{Summary, Guide, describe_agent, seen_ago}
use funduq_server.Docent.Ago.{Tells, seen_ago-Tells}
use funduq_server.Docent.Hosts.{transport_security_for, unchecked}
use funduq_server.Docent.Search.{matches, contains, split}
use funduq_server.Docent.Market.{describe_market, group, put_agent}
use funduq_server.Docent.Tools.{browse_souk, describe_agent_tool, has_name}
use funduq_server.Docent.Tools.Grouping.{IsMarket, browse_souk-IsMarket}
use funduq_server.Docent.Tools.Directions.{Sends, describe_agent_tool-Sends}
use funduq_server.SampleAgent.Resolve.{address_from_url}
use funduq_server.Wire.Directions.{ref_of, describe_agent-Address}
use funduq_server.ApiA2a.{interface_url}

abbrev guide : Guide
guide = record {
  provider_fingerprint = λ key. "fp-" ++ key;
  agent_card_path = "/.well-known/agent-card.json";
  lower = λ s. s;
  show = λ j. "?";
}

abbrev listed : String → String → Bool → ℕ → Summary
listed key name online at = record {
  provider_key = key;
  name = name;
  description = "helps with poetry";
  skills =
      obj (dict (("name", str "verse") ∷ ("tags", arr (of_list (str "rhyme" ∷ []))) ∷ [])) ∷ [];
  online = online;
  last_seen_at = at;
  joined_at = "2026-01-01T00:00:00+00:00";
  provider_name = none;
}

abbrev scribe : Summary
scribe = listed "k1" "scribe" true 7000000

abbrev haggler : Summary
haggler = listed "k2" "haggler" false 0

abbrev market : List Summary
market = scribe ∷ haggler ∷ listed "k1" "haggler" true 0 ∷ []

abbrev base : String
base = "https://souk.example/"

browse_souk-IsMarket_example :
    IsMarket guide 0 base market (browse_souk guide 0 base false market)
    × IsMarket guide 0 base (keep (λ a. a.online) market) (browse_souk guide 0 base true market)
browse_souk-IsMarket_example = browse_souk-IsMarket guide 0 base market

-- two stalls, though three agents are listed
two_stalls : get "provider_count" (browse_souk guide 0 base false market) ≡ int (pos 2)
unfolding browse_souk describe_market group put_agent
two_stalls = refl

describe_agent_tool-Sends_example :
    Sends guide 0 base
      (has_name "haggler")
      market
      (describe_agent_tool guide 0 base "haggler" "" market)
describe_agent_tool-Sends_example = describe_agent_tool-Sends guide 0 base "haggler" market

seen_ago-Tells_example : Tells (100000000 - 7000000) (seen_ago 100000000 7000000)
seen_ago-Tells_example = seen_ago-Tells 100000000 7000000

an_hour_and_a_half : seen_ago 5400000000 0 ≡ "1h ago"
unfolding seen_ago
an_hour_and_a_half = refl

-- "who can help with poetry": one word of the sentence is enough, and short words do not count
found_by_word : matches guide scribe "who can write poetry" ≡ ok true
unfolding matches contains split
found_by_word = refl

short_words : matches guide scribe "is he at it" ≡ ok false
unfolding matches contains split
short_words = refl

describe_agent-Address_example :
    (get "a2a_endpoint" (describe_agent guide 0 base scribe)
      ≡ str (interface_url guide.provider_fingerprint base (ref_of scribe)))
    × (address_from_url (interface_url guide.provider_fingerprint base (ref_of scribe)) ≡ record {
      url = interface_url guide.provider_fingerprint base (ref_of scribe);
      provider = some "fp-k1";
      provider_key = none;
      agent_name = some "scribe";
    })
describe_agent-Address_example = describe_agent-Address guide 0 base scribe refl refl

star : transport_security_for ("a" ∷ "*" ∷ []) ≡ unchecked
unfolding transport_security_for
star = refl
