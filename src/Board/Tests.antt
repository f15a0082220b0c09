-- ===== src/Board/Tests.antt =====
-- Concrete runs of the board.
mod Decisions
mod Updates
mod Contracts
mod Leases
mod Projections
use roambench.Base.{
  ℕ, ◌≡◌, refl, Bool, true, false, Option, none, some, List, [], ◌∷◌, ◌++◌, find, ⊤, any,
}
use roambench.Base.Text.{Text, codes, text_eq, trim_space, to_lower, contains, cut}
use roambench.ControlPlane.Claims.{ClaimTable}
use roambench.Board.{
  Task, Artifact, PhaseAttempt, Checkpoint, Project, Board, TaskUpdate, Answer, granted, refused,
}
use roambench.Board.Words.{
  TaskState, Acceptance, PhaseId, RunbookState, DispatchState, AttemptStatus, Outcome,
  CheckpointStatus, normal, normalize_task_state, normalize_acceptance, normalize_phase_id,
  normalize_outcome, same_phase,
}
use roambench.Board.Runbook.{
  choose_skill, find_skill, choose_runbook, default_for, find_runbook, allows_runbook, runbook_for,
  find_phase, first_main, main_after, recovery_target, next_phase, infer_current_phase,
  infer_runbook_state,
}
use roambench.Board.Evidence.{
  kind_allowed, outcome_passes, requirement, proves, extra_proves, lacks, missing_evidence, refresh,
}
use roambench.Board.Phases.{
  Host, runs, find_last, update_last, is_managed, can_start_phase, state_for_phase,
}
use roambench.Board.Phases.Steps.{
  takes_kind, new_artifact, with_artifact, finish_attempt, complete_phase,
}
use roambench.Board.Phases.Readiness.{Ready, complete_phase-Ready}

-- A host that draws readable ids.
abbrev test_host : Host
test_host = record {
  new_id = λ kind seed. kind ++ b'-' ∷ seed;
  prepare = λ _ _ _. granted (codes "/work");
  open_session = λ _ _ _. granted (codes "session");
  clean = λ dir. dir;
}

-- A task of the docs runbook.
abbrev docs_task : Text → TaskState → Acceptance → PhaseId → Task
docs_task id state acceptance phase = record {
  id = id;
  project_id = codes "p";
  milestone_id = [];
  depends_on = [];
  acceptance_command = [];
  acceptance_baseline = [];
  acceptance_passed = false;
  state = state;
  acceptance_status = acceptance;
  acceptance_decision_id = [];
  archive_decision_id = [];
  origin = codes "agent";
  dispatch_state = DispatchState.undispatched;
  risk_level = codes "low";
  priority = codes "low";
  selected_skill = codes "docs_update";
  runbook_id = [];
  current_phase = some phase;
  runbook_state = none;
  pause_reason = [];
  missing_evidence = [];
  session_ids = [];
  evidence = [];
  diff_summary = [];
  row_version = 1;
}

abbrev evidence_of : Text → Artifact
evidence_of kind = record {
  id = kind;
  task_id = codes "t";
  phase_attempt_id = [];
  kind = kind;
  outcome = Outcome.pass;
  label = kind;
  value = kind;
}

abbrev validation_attempt : PhaseAttempt
validation_attempt = record {
  id = codes "a";
  task_id = codes "t";
  phase_id = PhaseId.final_validation;
  session_id = [];
  agent_type = [];
  workspace_ref = [];
  status = AttemptStatus.running;
  artifact_ids = [];
  failure_reason = [];
}

abbrev pending_checkpoint : Text → List Text → Checkpoint
pending_checkpoint kind actions = record {
  id = codes "c";
  task_id = codes "t";
  kind = kind;
  status = CheckpointStatus.pending;
  resolved_by_decision_id = [];
  allowed_actions = actions;
  row_version = 1;
}

abbrev board_of : Task → List Artifact → List Checkpoint → Board
board_of task artifacts checkpoints = record {
  projects = [];
  tasks = task ∷ [];
  tools = [];
  attempts = validation_attempt ∷ [];
  tool_runs = [];
  artifacts = artifacts;
  checkpoints = checkpoints;
  decisions = [];
}

abbrev request : Text → TaskUpdate
request action = record {
  lease_id = [];
  milestone_id = none;
  depends_on = none;
  acceptance_command = none;
  agent_bypass = false;
  expected_row_version = 1;
  action = action;
  priority = [];
  risk_level = [];
  state = [];
  acceptance_status = [];
  phase_id = [];
  artifact_kind = codes "completion_check";
  artifact_outcome = codes "OK";
  artifact_label = [];
  artifact_value = [];
  failure_reason = [];
  tool_id = [];
}

abbrev granted_or {ℓ} : {A : Type ℓ} → A → Answer A → A
granted_or a (granted b) = b
granted_or a (refused e) = a

abbrev docs_evidence : List Artifact
docs_evidence =
    evidence_of (codes "plan")
    ∷ evidence_of (codes "doc_summary")
    ∷ evidence_of (codes "review_result")
    ∷ []

abbrev validating : Task
validating = docs_task (codes "t") TaskState.running Acceptance.not_ready PhaseId.final_validation

abbrev validating_board : Board
validating_board = board_of validating docs_evidence []

-- The task and the board once the validation is completed.
abbrev validated : Task × Board
validated =
    granted_or (validating, validating_board)
      (complete_phase test_host (request (codes "complete_phase")) validating validating_board)

validated_runs :
    complete_phase test_host (request (codes "complete_phase")) validating validating_board
    ≡ granted validated
unfolding complete_phase normal trim_space to_lower text_eq normalize_phase_id normalize_outcome
    same_phase refresh choose_skill find_skill choose_runbook default_for find_runbook
    allows_runbook runbook_for find_phase first_main main_after next_phase infer_current_phase
    infer_runbook_state kind_allowed outcome_passes requirement proves extra_proves lacks
    missing_evidence runs find_last update_last takes_kind new_artifact with_artifact finish_attempt
    state_for_phase
validated_runs = refl

validated_state : validated.0.state ≡ TaskState.execution_complete
unfolding complete_phase normal trim_space to_lower text_eq normalize_phase_id normalize_outcome
    same_phase refresh choose_skill find_skill choose_runbook default_for find_runbook
    allows_runbook runbook_for find_phase first_main main_after next_phase infer_current_phase
    infer_runbook_state kind_allowed outcome_passes requirement proves extra_proves lacks
    missing_evidence runs find_last update_last takes_kind new_artifact with_artifact finish_attempt
    state_for_phase
validated_state = refl

complete_phase-Ready_example : Ready validated
complete_phase-Ready_example =
    complete_phase-Ready test_host (request (codes "complete_phase")) validating validating_board
      validated validated_runs validated_state
