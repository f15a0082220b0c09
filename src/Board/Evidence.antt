-- ===== src/Board/Evidence.antt =====
-- Evidence of completion in internal/server/project_control.go: which artifacts pass, and what a runbook
-- still misses. The set of kinds that are present is given by its membership test.
pub mod Complete
use roambench.Base.{
  Bool, true, false, ◌&&◌, ◌||◌, not, Option, none, some, List, [], ◌∷◌, ◌++◌, map, if◌then◌else◌,
  any, filter,
}
use roambench.Base.Text.{Text, codes, text_eq, is_empty}
use roambench.Board.{Task, Artifact}
use roambench.Board.Words.{Outcome, normal}
use roambench.Board.Runbook.{
  Runbook, RunbookPhase, runbook_for, infer_current_phase, infer_runbook_state, skill_for,
  choose_skill,
}

-- `projectControlArtifactKindAllowed`.
unfoldable pub kind_allowed : RunbookPhase → Text → Bool
unfolding normal
kind_allowed phase kind = elim phase.required_artifacts [
  | [] ↦ true
  | r ∷ rs ↦ any (λ required. text_eq (normal required) kind) (r ∷ rs)
]

-- The kinds whose outcome has to be a pass.
abbrev pub is_strict : Text → Bool
is_strict kind =
    text_eq kind (codes "test_result")
    || text_eq kind (codes "review_result")
    || text_eq kind (codes "completion_check")

-- `projectControlArtifactOutcomePasses`.
unfoldable pub outcome_passes : Text → Outcome → Bool
unfolding normal
outcome_passes kind outcome = elim outcome [
  | Outcome.pass ↦ true
  | Outcome.fail ↦ false
  | Outcome.recorded ↦ not (is_strict (normal kind))
]

-- `projectControlCompletionEvidenceRequirement`.
unfoldable pub requirement : Text → Text
unfolding normal
requirement kind = let k = normal kind in if is_strict k then k ++ codes ":pass" else k

-- The artifact is evidence of this kind for the task.
unfoldable pub proves : Text → Text → Artifact → Bool
unfolding normal outcome_passes
proves task_id kind a =
    text_eq a.task_id task_id
    && outcome_passes (normal a.kind) a.outcome
    && text_eq (normal a.kind) kind

-- Evidence that is about to be recorded; no kind is no evidence.
unfoldable pub extra_proves : Text → Outcome → Text → Bool
unfolding normal outcome_passes
extra_proves extra outcome kind =
    not (is_empty extra) && outcome_passes (normal extra) outcome && text_eq (normal extra) kind

-- `!present[kind]`, for a rule that names a kind.
unfoldable pub lacks : Text → List Artifact → Text → Outcome → Text → Bool
unfolding normal proves extra_proves
lacks task_id artifacts extra outcome rule =
    not (is_empty (normal rule))
    && not
        (any (proves task_id (normal rule)) artifacts || extra_proves extra outcome (normal rule))

-- `projectControlMissingCompletionEvidence`.
unfoldable pub missing_evidence : Text → List Artifact → Runbook → Text → Outcome → List Text
unfolding normal lacks requirement
missing_evidence task_id artifacts runbook extra outcome =
    map (λ rule. requirement (normal rule))
      (filter (lacks task_id artifacts extra outcome) runbook.completion_rules)

-- What is missing when nothing is about to be recorded.
abbrev pub still_missing : Task → List Artifact → List Text
still_missing task artifacts =
    missing_evidence task.id artifacts (runbook_for task) [] Outcome.recorded

-- `refreshProjectControlTaskRunbookFields`.
unfoldable pub refresh : List Artifact → Task → Task
unfolding missing_evidence runbook_for choose_skill infer_current_phase infer_runbook_state
refresh artifacts task = record task {
  selected_skill = (skill_for task).id;
  runbook_id = (runbook_for task).id;
  current_phase = some (infer_current_phase task);
  runbook_state = some (infer_runbook_state task);
  missing_evidence = still_missing task artifacts;
}
