-- ===== src/AgentProbe/Recommend.antt =====
-- Which agents should work on and review a task of each tier: internal/agentprobe/recommend.go. Of a
-- probed agent only the two fields that are read are kept, and the text of the reason is left out.
pub mod Choice
mod Tests
use roambench.Base.{
  Bool, ◌&&◌, not, Option, none, some, List, [], ◌∷◌, ◌++◌, any, find, if◌then◌else◌,
}
use roambench.Base.Text.{Text, codes, text_eq}

pub record Agent : Type 0 where
  pub agent_label : Text
  pub installed : Bool

pub data Tier : Type 0 where
  t1 t2 t3 t4 : Tier

pub record Recommendation : Type 0 where
  pub tier : Tier
  pub worker_label : Text
  pub reviewer_label : Text

-- `installed[label]`, of the map that the first loop fills.
unfoldable pub is_installed : List Agent → Text → Bool
is_installed agents label = any (λ a. a.installed && text_eq a.agent_label label) agents

-- `firstInstalled` and `firstInstalledExcluding`.
unfoldable pub first_installed : List Text → (Text → Bool) → Option Text
first_installed priority installed = find installed priority

unfoldable pub first_installed_excluding : List Text → (Text → Bool) → Text → Option Text
first_installed_excluding priority installed exclude =
    find (λ l. not (text_eq l exclude) && installed l) priority

abbrev pub light_priority : List Text
light_priority = codes "opencode" ∷ codes "kiro-cli" ∷ codes "codex" ∷ codes "claude" ∷ []

abbrev pub heavy_pair : List Text
heavy_pair = codes "kiro-cli" ∷ codes "codex" ∷ []

-- The recommendations for two tiers, from one list of labels.
unfoldable pub recommend_pair : List Text → (Text → Bool) → Tier → Tier → List Recommendation
unfolding first_installed first_installed_excluding
recommend_pair priority installed s t = elim (first_installed priority installed) [
  | none ↦ []
  | some worker ↦ elim (first_installed_excluding priority installed worker) [
    | none ↦ []
    | some reviewer ↦
        record { tier = s; worker_label = worker; reviewer_label = reviewer }
        ∷ record { tier = t; worker_label = worker; reviewer_label = reviewer }
        ∷ []
  ]
]

-- `Recommendations`.
unfoldable pub recommendations : List Agent → List Recommendation
unfolding is_installed recommend_pair
recommendations agents =
    recommend_pair light_priority (is_installed agents) Tier.t1 Tier.t2
    ++ recommend_pair heavy_pair (is_installed agents) Tier.t3 Tier.t4
