-- ===== src/Board/Runbook/Paths.antt =====
-- The order of the phases: from every phase the next ones lead to acceptance.
use roambench.Base.{
  ℕ, zero, suc, ◌≡◌, refl, sym, subst, ◌≤◌, inl, inr, arith, true, Option, none, some,
}
use roambench.Base.Text.{text_eq}
use roambench.Board.{Task}
use roambench.Board.Words.{PhaseId, same_phase}
use roambench.Board.Runbook.{
  Runbook, code_change, docs_update, find_phase, has_phase, first_main, main_after, recovery_target,
  next_phase, runbook_for,
}
use roambench.Board.Runbook.Selection.{runbook_for-cases}

-- The phase that is reached by completing a phase and `n` more.
abbrev pub follow : Runbook → ℕ → PhaseId → Option PhaseId
follow runbook zero id = some id
follow runbook (suc n) id = elim (next_phase runbook id) [
  | some p ↦ follow runbook n p
  | none ↦ none
]

-- Acceptance is reached after `n` phases that are completed.
abbrev pub Accepts : Runbook → ℕ → PhaseId → Type 0
Accepts runbook n id = follow runbook n id ≡ some PhaseId.ready_for_acceptance

code_change-Accepts :
    (id : PhaseId) → has_phase code_change id ≡ true → (n : ℕ) × (n ≤ 5) × Accepts code_change n id
unfolding find_phase next_phase recovery_target main_after first_main same_phase text_eq
code_change-Accepts PhaseId.plan h = (5, ground arith, refl)
code_change-Accepts PhaseId.implement h = (4, ground arith, refl)
code_change-Accepts PhaseId.write h = absurd (ground arith)
code_change-Accepts PhaseId.test h = (3, ground arith, refl)
code_change-Accepts PhaseId.review h = (2, ground arith, refl)
code_change-Accepts PhaseId.fix_or_replan h = (4, ground arith, refl)
code_change-Accepts PhaseId.final_validation h = (1, ground arith, refl)
code_change-Accepts PhaseId.ready_for_acceptance h = absurd (ground arith)

docs_update-Accepts :
    (id : PhaseId) → has_phase docs_update id ≡ true → (n : ℕ) × (n ≤ 5) × Accepts docs_update n id
unfolding find_phase next_phase recovery_target main_after first_main same_phase text_eq
docs_update-Accepts PhaseId.plan h = (4, ground arith, refl)
docs_update-Accepts PhaseId.implement h = absurd (ground arith)
docs_update-Accepts PhaseId.write h = (3, ground arith, refl)
docs_update-Accepts PhaseId.test h = absurd (ground arith)
docs_update-Accepts PhaseId.review h = (2, ground arith, refl)
docs_update-Accepts PhaseId.fix_or_replan h = (3, ground arith, refl)
docs_update-Accepts PhaseId.final_validation h = (1, ground arith, refl)
docs_update-Accepts PhaseId.ready_for_acceptance h = absurd (ground arith)

-- From any phase of a task's runbook, completing one phase after the other reaches acceptance after
-- at most five of them, also from the phase that repairs a failed one.
pub next_phase-Accepts :
    (task : Task) (id : PhaseId)
    → has_phase (runbook_for task) id ≡ true
    → (n : ℕ) × (n ≤ 5) × Accepts (runbook_for task) n id
next_phase-Accepts task id h = elim (runbook_for-cases task) [
  | inl e ↦
      subst (λ r. (n : ℕ) × (n ≤ 5) × Accepts r n id) (sym e)
        (code_change-Accepts id (subst (λ r. has_phase r id ≡ true) e h))
  | inr e ↦
      subst (λ r. (n : ℕ) × (n ≤ 5) × Accepts r n id) (sym e)
        (docs_update-Accepts id (subst (λ r. has_phase r id ≡ true) e h))
]
