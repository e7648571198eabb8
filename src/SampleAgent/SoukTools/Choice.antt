-- ===== src/SampleAgent/SoukTools/Choice.antt =====
-- Which agent's card is fetched.
use funduq_server.Prelude.{String, ◌≡◌, ap, ◌↔◌, List, [], ◌∷◌, keep, ok}
use funduq_server.Prelude.Alone.{Alone, keep-Alone, keep-split}
use funduq_server.SampleAgent.SoukTools.{AgentRow, asked, is_match, of_matches, choose_card}

of_matches-asked :
    (name : String) (xs : List AgentRow) (agent : AgentRow)
    → of_matches name xs ≡ asked agent
    → xs ≡ agent ∷ []
unfolding of_matches
of_matches-asked name [] agent h = absurd (cc)
of_matches-asked name (x ∷ []) agent h =
    let same : x ≡ agent = cc in ap (λ (a : AgentRow). a ∷ []) same
of_matches-asked name (x ∷ y ∷ rest) agent h = absurd (cc)

-- The model is shown an agent's card exactly if that agent alone of those listed bears the name and,
-- where a provider is given, its key or fingerprint; else no card is fetched.
pub choose_card_iff :
    (agents : List AgentRow) (name provider : String) (agent : AgentRow)
    → (choose_card name provider (ok agents) ≡ asked agent)
      ↔ Alone (is_match name provider) agents agent
unfolding choose_card of_matches
choose_card_iff agents name provider agent = (
  λ h.
      keep-Alone (is_match name provider) agents agent
        (of_matches-asked name (keep (is_match name provider) agents) agent h),
  λ a. rw (
    a.split,
    keep-split (is_match name provider) a.before a.after agent a.passes a.none_before a.none_after,
  ),
)
