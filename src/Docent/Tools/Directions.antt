-- ===== src/Docent/Tools/Directions.antt =====
-- To which stall the docent sends a visitor who knows a name.
use funduq_server.Prelude.{
  ℕ, String, Bool, true, false, ◌≡◌, refl, ap, inl, inr, ◌⊎◌, ◌∙◌, some, List, [], ◌∷◌, any, keep,
  Bool-cases, ◌==◌, arith,
}
use funduq_server.Prelude.Alone.{Alone, keep-Alone, keep-split}
use funduq_server.Json.{bool, Dict, lookup}
use funduq_server.Docent.{Summary, Guide, describe_agent}
use funduq_server.Docent.Tools.{
  describe_agent_tool, of_named, of_exact, agent_resource, has_name, is_pair,
}

module _ (guide : Guide) (now : ℕ) (base : String) where
  -- The answer describes the only agent that passes; or it says that none was found, and there is no
  -- agent that alone passes.
  abbrev pub Sends : (Summary → Bool) → List Summary → Dict → Type 0
  Sends p agents answer =
      ((a : Summary) × Alone p agents a × (answer ≡ describe_agent guide now base a))
      ⊎ ((lookup "found" answer ≡ some (bool false)) × (((a : Summary) × Alone p agents a) → ⊥))

  no_one :
      (p : Summary → Bool) (agents : List Summary)
      → ((a : Summary) → keep p agents ≡ a ∷ [] → ⊥)
      → ((a : Summary) × Alone p agents a)
      → ⊥
  no_one p agents h (a, alone) = h a (
      ap (keep p) alone.split
      ∙ keep-split p alone.before alone.after a alone.passes alone.none_before alone.none_after)

  of_named-Sends :
      (name : String) (agents kept : List Summary)
      → keep (has_name name) agents ≡ kept
      → Sends (has_name name) agents (of_named guide now base name kept)
  unfolding of_named
  of_named-Sends name agents [] e = inr (refl, no_one (has_name name) agents (λ a h. cc))
  of_named-Sends name agents (a ∷ []) e = inl (a, keep-Alone (has_name name) agents a e, refl)
  of_named-Sends name agents (a ∷ b ∷ rest) e =
      inr (refl, no_one (has_name name) agents (λ c h. cc))

  -- Asked for a name alone, the docent describes the one listed agent that bears it; where none or
  -- several do, its answer says that nothing was found.
  pub describe_agent_tool-Sends :
      (name : String) (agents : List Summary)
      → Sends (has_name name) agents (describe_agent_tool guide now base name "" agents)
  unfolding describe_agent_tool
  describe_agent_tool-Sends name agents =
      of_named-Sends name agents (keep (has_name name) agents) refl

  -- With a provider, the tool and the resource describe the same agent where one is listed.
  pub describe_agent_tool-agent_resource :
      (name provider : String) (agents : List Summary)
      → (provider == "") ≡ false
      → any (is_pair guide name provider) agents ≡ true
      → describe_agent_tool guide now base name provider agents
        ≡ agent_resource guide now base provider name agents
  unfolding describe_agent_tool of_exact agent_resource
  describe_agent_tool-agent_resource name provider [] h listed = absurd (cc)
  describe_agent_tool-agent_resource name provider (a ∷ rest) h listed =
      elim (Bool-cases (is_pair guide name provider a)) [
        | inl good ↦ rw (h, good) refl
        | inr bad ↦
            rw (h, bad)
              (rw (h) at (describe_agent_tool-agent_resource name provider rest h (ground arith)))
      ]
