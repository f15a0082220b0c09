-- ===== src/Board/Evidence/Complete.antt =====
-- When nothing is missing.
use roambench.Base.{
  ◌≡◌, ◌⊎◌, refl, Bool, true, false, inl, inr, List, [], ◌∷◌, ◌++◌, map, any, any-append, filter,
  All, All-map, ◌↔◌, arith, Bool-cases,
}
use roambench.Base.Text.{Text, text_eq, is_empty}
use roambench.Board.{Artifact}
use roambench.Board.Words.{Outcome, normal}
use roambench.Board.Runbook.{Runbook}
use roambench.Board.Evidence.{proves, extra_proves, lacks, requirement, missing_evidence}

-- For each rule that names a kind an artifact of the task, of that kind, passes.
abbrev pub Proven : Text → List Artifact → List Text → Type 0
Proven task_id artifacts rules =
    All
      (λ rule.
        (is_empty (normal rule) ≡ true) ⊎ (any (proves task_id (normal rule)) artifacts ≡ true))
      rules

filter-nil {ℓ κ} :
    {A : Type ℓ} {B : Type κ} (f : A → B) (p : A → Bool) (xs : List A)
    → map f (filter p xs) ≡ []
    → All (λ x. p x ≡ false) xs
filter-nil f p [] h = tt
filter-nil f p (x ∷ xs) h = elim (Bool-cases (p x)) [
  | inl hit ↦ absurd (ground arith)
  | inr miss ↦ (miss, filter-nil f p xs (ground arith))
]

module _ (task_id : Text) (artifacts : List Artifact) where
  -- A rule that is not lacking with the extra artifact is proven once that one is recorded.
  lacks-recorded :
      (a : Artifact) (rule : Text)
      → text_eq a.task_id task_id ≡ true
      → lacks task_id artifacts a.kind a.outcome rule ≡ false
      → (is_empty (normal rule) ≡ true)
        ⊎ (any (proves task_id (normal rule)) (artifacts ++ a ∷ []) ≡ true)
  unfolding lacks extra_proves proves
  lacks-recorded a rule own h =
      ground (arith, any-append (proves task_id (normal rule)) artifacts (a ∷ []))

  lacks-none :
      (rule : Text)
      → lacks task_id artifacts [] Outcome.recorded rule ≡ false
      → (is_empty (normal rule) ≡ true) ⊎ (any (proves task_id (normal rule)) artifacts ≡ true)
  unfolding lacks extra_proves
  lacks-none rule h = ground arith

  lacks-proven :
      (rule : Text)
      → (is_empty (normal rule) ≡ true) ⊎ (any (proves task_id (normal rule)) artifacts ≡ true)
      → lacks task_id artifacts [] Outcome.recorded rule ≡ false
  unfolding lacks
  lacks-proven rule h = ground arith

  -- A runbook that misses nothing has all its rules proven.
  pub missing-Proven :
      (r : Runbook)
      → missing_evidence task_id artifacts r [] Outcome.recorded ≡ []
      → Proven task_id artifacts r.completion_rules
  unfolding missing_evidence
  missing-Proven r h = All-map _ _ r.completion_rules lacks-none (
      filter-nil (λ rule. requirement (normal rule)) (lacks task_id artifacts [] Outcome.recorded)
        r.completion_rules h)

  -- The same with an artifact that is about to be recorded.
  pub missing-recorded :
      (r : Runbook) (a : Artifact)
      → text_eq a.task_id task_id ≡ true
      → missing_evidence task_id artifacts r a.kind a.outcome ≡ []
      → Proven task_id (artifacts ++ a ∷ []) r.completion_rules
  unfolding missing_evidence
  missing-recorded r a own h =
      All-map _ _ r.completion_rules (λ rule. lacks-recorded a rule own)
        (filter-nil (λ rule. requirement (normal rule)) (lacks task_id artifacts a.kind a.outcome)
          r.completion_rules h)

  filter-Proven :
      (rules : List Text)
      → Proven task_id artifacts rules
      → filter (lacks task_id artifacts [] Outcome.recorded) rules ≡ []
  filter-Proven [] h = refl
  filter-Proven (rule ∷ rules) h = rw (lacks-proven rule h.0) (filter-Proven rules h.1)

  -- A runbook misses nothing exactly when all its rules are proven.
  pub missing_iff_Proven :
      (r : Runbook)
      → (missing_evidence task_id artifacts r [] Outcome.recorded ≡ [])
        ↔ Proven task_id artifacts r.completion_rules
  unfolding missing_evidence
  missing_iff_Proven r = (missing-Proven r, λ h. rw (filter-Proven r.completion_rules h) refl)
