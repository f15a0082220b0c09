-- ===== src/AgentProbe/Recommend/Tests.antt =====
-- Probes on concrete data, and instances of the theorems.
use roambench.Base.{◌≡◌, refl, true, false, [], ◌∷◌, List, All}
use roambench.Base.Text.{codes, text_eq}
use roambench.AgentProbe.Recommend.{
  Agent, Tier, is_installed, first_installed, first_installed_excluding, recommend_pair,
  recommendations,
}
use roambench.AgentProbe.Recommend.Choice.{Suits, recommendations-Suits}

abbrev probe : List Agent
probe =
    record { agent_label = codes "claude"; installed = true }
    ∷ record { agent_label = codes "codex"; installed = true }
    ∷ record { agent_label = codes "kiro-cli"; installed = false }
    ∷ []

-- Codex is the cheaper worker, and no pair is there for the heavy tiers.
recommendations-probe :
    recommendations probe
    ≡ record { tier = Tier.t1; worker_label = codes "codex"; reviewer_label = codes "claude" }
      ∷ record { tier = Tier.t2; worker_label = codes "codex"; reviewer_label = codes "claude" }
      ∷ []
unfolding recommendations recommend_pair is_installed first_installed first_installed_excluding
    text_eq
recommendations-probe = refl

recommendations-Suits_example : All (Suits probe) (recommendations probe)
recommendations-Suits_example = recommendations-Suits probe
