-- ===== src/Board/Tools/Results.antt =====
-- What the result of a tool does to its phase: `applyProjectControlToolResult` of
-- internal/server/project_control.go.
use roambench.Base.{
  Bool, true, false, not, none, some, List, [], ◌∷◌, ◌++◌, if◌then◌else◌, any, length, ltb,
}
use roambench.Base.Text.{Text, codes, text_eq, is_empty}
use roambench.Board.{
  Task, PhaseAttempt, Artifact, ToolRun, Board, TaskUpdate, Answer, granted, ◌>>=◌, ◌>>◌,
  unknown_phase, no_running_attempt, no_artifact_kind,
}
use roambench.Board.Words.{PhaseId, RunStatus, Outcome, normal, normalize_outcome, phase_text}
use roambench.Board.Runbook.{RunbookPhase, runbook_for, find_phase}
use roambench.Board.Evidence.{outcome_passes, still_missing}
use roambench.Board.Phases.{Host, runs, find_last, update_last, guard, or_refuse}
use roambench.Board.Phases.Steps.{new_artifact, with_artifact, attach, complete_phase, fail_phase}

-- `projectControlToolResult`.
pub record ToolResult : Type 0 where
  pub artifact_kind : Text
  pub artifact_outcome : Text
  pub artifact_label : Text
  pub artifact_value : Text

-- `projectControlPhaseRequiresArtifact`.
unfoldable pub requires_artifact : RunbookPhase → Text → Bool
unfolding normal
requires_artifact phase kind =
    any (λ required. text_eq (normal required) (normal kind)) phase.required_artifacts

-- The request by which a result completes its phase.
abbrev pub completion : PhaseId → ToolResult → TaskUpdate
completion phase result = record {
  lease_id = [];
  milestone_id = none;
  depends_on = none;
  acceptance_command = none;
  agent_bypass = false;
  expected_row_version = 0;
  action = [];
  priority = [];
  risk_level = [];
  state = [];
  acceptance_status = [];
  phase_id = phase_text phase;
  artifact_kind = result.artifact_kind;
  artifact_outcome = result.artifact_outcome;
  artifact_label = result.artifact_label;
  artifact_value = result.artifact_value;
  failure_reason = [];
  tool_id = [];
}

-- The id of the last artifact.
abbrev last_id : List Artifact → Text
last_id [] = []
last_id (a ∷ []) = a.id
last_id (a ∷ b ∷ rest) = last_id (b ∷ rest)

abbrev closed_run : RunStatus → Outcome → Text → ToolRun → ToolRun
closed_run status outcome artifact run = record run {
  status = status;
  outcome = some outcome;
  artifact_id = artifact;
}

-- A result that does not pass fails its phase.
unfoldable pub fail_run : Artifact → ToolRun → Task → Board → Answer (ToolRun × Task × Board)
unfolding fail_phase
fail_run a run task board = do
  (task', board') ←
      fail_phase (phase_text run.phase_id) (codes "Tool " ++ run.tool_id ++ codes " failed.") task
        board
  granted (closed_run RunStatus.failed a.outcome a.id run, task', board')

module _ (host : Host) where
  -- The board with an artifact of the running attempt, which goes on.
  abbrev record_result : PhaseId → PhaseAttempt → ToolResult → Task → Board → Artifact × Board
  record_result phase attempt result task board =
      let a =
        new_artifact host task attempt.id phase (normal result.artifact_kind)
          (normalize_outcome result.artifact_outcome) result.artifact_label result.artifact_value in
      (
        a,
        record board {
          artifacts = board.artifacts ++ a ∷ [];
          attempts = update_last (runs task.id phase) (attach a) board.attempts;
        },
      )

  -- A passing result completes its phase.
  unfoldable pub complete_run :
      ToolResult → ToolRun → Task → Board → Answer (ToolRun × Task × Board)
  unfolding normalize_outcome complete_phase
  complete_run result run task board = do
    (task', board') ← complete_phase host (completion run.phase_id result) task board
    let grown = ltb (length board.artifacts) (length board'.artifacts)
    let artifact = if grown then last_id board'.artifacts else run.artifact_id
    granted (
      closed_run RunStatus.completed (normalize_outcome result.artifact_outcome) artifact run,
      task',
      board',
    )

  -- `applyProjectControlToolResult`.
  unfoldable pub apply_result :
      ToolResult → ToolRun → Task → Board → Answer (ToolRun × Task × Board)
  unfolding normal normalize_outcome runbook_for find_phase find_last runs update_last
      requires_artifact outcome_passes new_artifact with_artifact complete_run fail_run
  apply_result result run task board = do
    phase ← or_refuse (find_phase (runbook_for task) run.phase_id) unknown_phase
    attempt ← or_refuse (find_last (runs task.id run.phase_id) board.attempts) no_running_attempt
    let kind = normal result.artifact_kind
    let outcome = normalize_outcome result.artifact_outcome
    guard (not (is_empty kind)) no_artifact_kind
    let (a, board') = record_result run.phase_id attempt result task board
    let task' = with_artifact a task
    elim (requires_artifact phase kind) [
      | false ↦ granted (
        closed_run RunStatus.completed outcome a.id run,
        record task' { missing_evidence = still_missing task' board'.artifacts },
        board',
      )
      | true ↦
          if outcome_passes kind outcome
          then complete_run result run task board
          else fail_run a run task' board'
    ]
