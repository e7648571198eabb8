-- ===== src/Docent/Tools.antt =====
-- The tools and resources of `create_docent`. Each takes what `list_agents` gives it, and answers
-- with a dict.
pub mod Grouping
pub mod Directions
use funduq_server.Prelude.{
  ℕ, String, Bool, true, false, not, ◌&&◌, ◌||◌, List, [], ◌∷◌, map, length, keep, ◌==◌,
  if◌then◌else◌, Result, ok, ◌>>=◌,
}
use funduq_server.Json.{Json, int, pos, bool, str, arr, obj, of_list, Dict, dict}
use funduq_server.Docent.{Summary, Guide, describe_agent}
use funduq_server.Docent.Market.{online_count, describe_stall, describe_market}
use funduq_server.Docent.Search.{strip, matches}

abbrev pub has_name : String → Summary → Bool
has_name name a = a.name == name

-- `a.name == name and provider in (a.provider_key, provider_fingerprint(a.provider_key))`
abbrev pub is_pair : Guide → String → String → Summary → Bool
is_pair guide name provider a =
    a.name == name
    && (a.provider_key == provider || guide.provider_fingerprint a.provider_key == provider)

module _ (guide : Guide) (now : ℕ) (public_base_url : String) where
  abbrev described : List Summary → Json
  described agents =
      arr (of_list (map (λ a. obj (describe_agent guide now public_base_url a)) agents))

  unfoldable pub browse_souk : Bool → List Summary → Dict
  browse_souk only_online agents =
      describe_market guide now public_base_url
        (if only_online then keep (λ a. a.online) agents else agents)

  unfoldable pub found_among : String → List Summary → Result (List Summary)
  found_among needle [] = ok []
  found_among needle (a ∷ rest) = do
    is_match ← matches guide a needle
    others ← found_among needle rest
    ok (if is_match then a ∷ others else others)

  unfoldable pub search_agents : String → List Summary → Result Dict
  unfolding strip found_among
  search_agents query agents =
      let needle = guide.lower (strip query) in
      do
        found ← (if needle == "" then ok agents else found_among needle agents)
        ok (
            dict (
              ("query", str query)
              ∷ ("match_count", int (pos (length found)))
              ∷ ("searched_count", int (pos (length agents)))
              ∷ ("agents", described found)
              ∷ []))

  of_exact : String → String → List Summary → Dict
  of_exact name provider [] = dict (
      ("found", bool false)
      ∷ ("asked_for", obj (dict (("name", str name) ∷ ("provider", str provider) ∷ [])))
      ∷ ("hint", str "No stall with that key offers that name — browse_souk lists who is here.")
      ∷ [])
  of_exact name provider (a ∷ rest) = describe_agent guide now public_base_url a

  of_named : String → List Summary → Dict
  of_named name [] = dict (
      ("found", bool false)
      ∷ ("asked_for", str name)
      ∷ ("hint", str "No listed agent by that name — browse_souk shows who is here.")
      ∷ [])
  of_named name (a ∷ []) = describe_agent guide now public_base_url a
  of_named name (a ∷ b ∷ rest) = dict (
      ("found", bool false)
      ∷ ("asked_for", str name)
      ∷ ("reason", str "ambiguous_name")
      ∷ (
        "hint",
        str
            "Several stalls offer this name. Ask again with the provider fingerprint of the one you meant.",
      )
      ∷ ("candidates", described (a ∷ b ∷ rest))
      ∷ [])

  unfoldable pub describe_agent_tool : String → String → List Summary → Dict
  unfolding of_exact of_named
  describe_agent_tool name provider agents =
      if not (provider == "")
      then of_exact name provider (keep (is_pair guide name provider) agents)
      else of_named name (keep (has_name name) agents)

  of_members : String → List Summary → Dict
  of_members provider_key [] = dict (
      ("found", bool false)
      ∷ ("asked_for", str provider_key)
      ∷ ("hint", str "No stall by that provider key — browse_souk lists every stall here.")
      ∷ [])
  of_members provider_key (a ∷ rest) =
      describe_stall guide now public_base_url provider_key (a ∷ rest)

  unfoldable pub describe_stall_tool : String → List Summary → Dict
  unfolding of_members
  describe_stall_tool provider_key agents =
      of_members provider_key (keep (λ a. a.provider_key == provider_key) agents)

  -- the resource `souk://providers`
  unfoldable pub stalls : List Summary → Dict
  stalls agents = describe_market guide now public_base_url agents

  -- the resource `souk://agents`
  unfoldable pub roster : List Summary → Dict
  roster agents = dict (
      ("agent_count", int (pos (length agents)))
      ∷ ("online_count", int (pos (online_count agents)))
      ∷ ("agents", described agents)
      ∷ [])

  -- the resource `souk://agent/{provider}/{name}`
  unfoldable pub agent_resource : String → String → List Summary → Dict
  agent_resource provider name [] =
      dict (("found", bool false) ∷ ("provider", str provider) ∷ ("name", str name) ∷ [])
  agent_resource provider name (a ∷ rest) =
      let later = agent_resource provider name rest in
      if is_pair guide name provider a then describe_agent guide now public_base_url a else later
