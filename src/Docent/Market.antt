-- ===== src/Docent/Market.antt =====
-- `describe_stall` and `describe_market`. The dict `stalls` is an association list in the order of
-- insertion.
use funduq_server.Prelude.{
  ℕ, String, Option, none, some, List, [], ◌∷◌, ◌++◌, map, length, keep, ◌==◌, if◌then◌else◌,
}
use funduq_server.Json.{Json, int, pos, str, arr, obj, of_list, Dict, dict}
use funduq_server.Docent.{Summary, Guide, describe_agent, opt_str}

abbrev pub online_count : List Summary → ℕ
online_count agents = length (keep (λ a. a.online) agents)

-- a name that is neither absent nor empty
given : Option String → Option String
given none = none
given (some name) = if name == "" then none else some name

or_next : Option String → Option String → Option String
or_next none later = later
or_next (some name) later = some name

-- `next((a.provider_name for a in agents if a.provider_name), None)`
unfoldable pub storefront_name : List Summary → Option String
unfolding given or_next
storefront_name [] = none
storefront_name (a ∷ rest) = or_next (given a.provider_name) (storefront_name rest)

-- `stalls.setdefault(agent.provider_key, []).append(agent)`
unfoldable pub put_agent : Summary → List (String × List Summary) → List (String × List Summary)
put_agent agent [] = (agent.provider_key, agent ∷ []) ∷ []
put_agent agent ((key, members) ∷ stalls) =
    let later = put_agent agent stalls in
    if key == agent.provider_key
    then (key, members ++ agent ∷ []) ∷ stalls
    else (key, members) ∷ later

unfoldable pub group : List (String × List Summary) → List Summary → List (String × List Summary)
group stalls [] = stalls
group stalls (agent ∷ rest) = group (put_agent agent stalls) rest

module _ (guide : Guide) (now : ℕ) (public_base_url : String) where
  unfoldable pub describe_stall : String → List Summary → Dict
  describe_stall public_key agents = dict (
      ("provider_key", str public_key)
      ∷ ("storefront_name", opt_str (storefront_name agents))
      ∷ ("agent_count", int (pos (length agents)))
      ∷ ("online_count", int (pos (online_count agents)))
      ∷ ("offers", arr (of_list (map (λ a. str a.name) agents)))
      ∷ (
        "agents",
        arr (of_list (map (λ a. obj (describe_agent guide now public_base_url a)) agents)),
      )
      ∷ [])

  abbrev pub stall_entry : String × List Summary → Json
  stall_entry (key, members) = obj (describe_stall key members)

  unfoldable pub describe_market : List Summary → Dict
  describe_market agents =
      let stalls = group [] agents in
      dict (
        ("agent_count", int (pos (length agents)))
        ∷ ("online_count", int (pos (online_count agents)))
        ∷ ("provider_count", int (pos (length stalls)))
        ∷ ("providers", arr (of_list (map stall_entry stalls)))
        ∷ [])
