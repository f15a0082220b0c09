-- ===== src/Board/Phases/Steps.antt =====
-- Starting, completing and failing a phase (internal/server/project_control.go).
use roambench.Base.{
  Bool, true, false, ◌&&◌, ◌||◌, not, Option, none, some, List, [], ◌∷◌, ◌++◌, if◌then◌else◌, any,
  ⊤,
}
use roambench.Base.Text.{Text, codes, text_eq, is_empty, trim_space}
use roambench.Board.{
  Task, PhaseAttempt, Artifact, Board, TaskUpdate, Answer, granted, refused, ◌>>=◌, ◌>>◌,
  unknown_phase, phase_running, no_running_attempt, artifact_required, artifact_refused,
  outcome_refused, missing_rules, no_next_phase, shared_directory,
}
use roambench.Board.Words.{
  TaskState, Acceptance, PhaseId, RunbookState, AttemptStatus, Outcome, normal, normalize_phase_id,
  normalize_outcome, same_phase, phase_text,
}
use roambench.Board.Runbook.{RunbookPhase, runbook_for, find_phase, next_phase}
use roambench.Board.Evidence.{
  kind_allowed, outcome_passes, missing_evidence, still_missing, refresh,
}
use roambench.Board.Phases.{
  Host, append_unique, agent_type, state_for_phase, shared_directory_conflict, is_managed, runs,
  find_last, update_last, guard, or_refuse, can_start_phase,
}
use roambench.Board.Phases.Workspace.{workspace_kind, workspace_ref}

abbrev pub is_nil {ℓ} : {A : Type ℓ} → List A → Bool
is_nil [] = true
is_nil (_ ∷ _) = false

-- The phase that a request names, and the current one where it names none.
abbrev pub requested_phase : Text → Task → Option PhaseId
requested_phase requested task = elim (normalize_phase_id requested) [
  | some p ↦ some p
  | none ↦ task.current_phase
]

-- The task once a phase was started.
abbrev started : RunbookPhase → Text → Task → Task
started phase session task = record task {
  state = state_for_phase phase.id;
  acceptance_status = Acceptance.not_ready;
  current_phase = some phase.id;
  runbook_state = some RunbookState.in_progress;
  session_ids = append_unique task.session_ids session;
}

-- What an artifact adds to its task.
unfoldable pub with_artifact : Artifact → Task → Task
with_artifact a task = record task {
  evidence = task.evidence ++ (a.label, a.value) ∷ [];
  diff_summary = if text_eq a.kind (codes "diff_summary") then a.value else task.diff_summary;
}

abbrev pub attach : Artifact → PhaseAttempt → PhaseAttempt
attach a attempt = record attempt { artifact_ids = attempt.artifact_ids ++ a.id ∷ [] }

abbrev pub completed : PhaseAttempt → PhaseAttempt
completed attempt = record attempt { status = AttemptStatus.completed }

abbrev pub failed : Text → PhaseAttempt → PhaseAttempt
failed reason attempt = record attempt {
  status = AttemptStatus.failed;
  failure_reason =
      if is_empty (trim_space reason)
      then codes "Phase failed without a detailed reason."
      else trim_space reason;
}

-- The task once a phase was completed and this one comes next.
abbrev pub advanced : PhaseId → List Artifact → Task → Task
advanced PhaseId.ready_for_acceptance artifacts task = record task {
  state = TaskState.execution_complete;
  acceptance_status = Acceptance.ready_for_acceptance;
  current_phase = some PhaseId.ready_for_acceptance;
  runbook_state = some RunbookState.ready_for_acceptance;
  missing_evidence = [];
}
advanced next artifacts task = record task {
  current_phase = some next;
  runbook_state = some RunbookState.in_progress;
  state = state_for_phase next;
  missing_evidence = still_missing task artifacts;
}

abbrev pub find_requested : Option PhaseId → Task → Answer RunbookPhase
find_requested none task = refused unknown_phase
find_requested (some id) task = or_refuse (find_phase (runbook_for task) id) unknown_phase

-- The artifact that a request brings has a kind that the phase takes, where it takes any.
unfoldable pub takes_kind : RunbookPhase → Text → Answer ⊤
unfolding kind_allowed
takes_kind phase kind = elim phase.required_artifacts [
  | [] ↦ granted tt
  | _ ∷ _ ↦
      if is_empty kind
      then refused artifact_required
      else guard (kind_allowed phase kind) artifact_refused
]

-- The task once a phase has failed.
abbrev pub set_back : List Artifact → Task → Task
set_back artifacts task = record task {
  state = TaskState.failed;
  current_phase = some PhaseId.fix_or_replan;
  runbook_state = some RunbookState.needs_fix;
  acceptance_status = Acceptance.not_ready;
  missing_evidence = still_missing task artifacts;
}

-- `failProjectControlTaskPhase`.
unfoldable pub fail_phase : Text → Text → Task → Board → Answer (Task × Board)
unfolding normalize_phase_id refresh find_last runs update_last missing_evidence runbook_for
fail_phase requested reason task board = do
  let t = refresh board.artifacts task
  id ← or_refuse (requested_phase requested t) no_running_attempt
  or_refuse (find_last (runs t.id id) board.attempts) no_running_attempt
  granted (
    set_back board.artifacts t,
    record board { attempts = update_last (runs t.id id) (failed reason) board.attempts },
  )

module _ (host : Host) where
  abbrev new_attempt : Task → RunbookPhase → Text → Text → PhaseAttempt
  new_attempt task phase dir session = record {
    id = host.new_id (codes "phase-attempt") (task.id ++ b'-' ∷ phase_text phase.id);
    task_id = task.id;
    phase_id = phase.id;
    session_id = session;
    agent_type = agent_type phase;
    workspace_ref = workspace_ref host.clean (workspace_kind phase) dir;
    status = AttemptStatus.running;
    artifact_ids = [];
    failure_reason = [];
  }

  -- `startProjectControlTaskPhase`.
  unfoldable pub start_phase : Text → Task → Board → Answer (Task × Board)
  unfolding normalize_phase_id can_start_phase shared_directory_conflict is_managed runs find_last
      runbook_for refresh
  start_phase requested task board = do
    guard (not (is_managed board task && shared_directory_conflict board task requested))
        shared_directory
    let t = refresh board.artifacts task
    phase ← can_start_phase t (requested_phase requested t) (runbook_for t)
    guard (not (any (runs t.id phase.id) board.attempts)) phase_running
    dir ←
        host.prepare t phase
          (host.new_id (codes "phase-attempt") (t.id ++ b'-' ∷ phase_text phase.id))
    session ← host.open_session t phase dir
    granted (
      started phase session t,
      record board { attempts = board.attempts ++ new_attempt t phase dir session ∷ [] },
    )

  -- The artifact that `recordProjectControlPhaseArtifact` adds.
  unfoldable pub new_artifact : Task → Text → PhaseId → Text → Outcome → Text → Text → Artifact
  new_artifact task attempt_id phase kind outcome label value = record {
    id = host.new_id (codes "artifact") (task.id ++ b'-' ∷ kind);
    task_id = task.id;
    phase_attempt_id = attempt_id;
    kind = kind;
    outcome = outcome;
    label = if is_empty (trim_space label) then kind else trim_space label;
    value =
        if is_empty (trim_space value)
        then codes "Recorded " ++ kind ++ codes " for phase " ++ phase_text phase ++ codes "."
        else trim_space value;
  }

  -- `recordProjectControlPhaseArtifact`, where a kind is given, and the attempt that is completed.
  unfoldable pub finish_attempt :
      PhaseId → Text → Outcome → TaskUpdate → Task → Board → PhaseAttempt → Task × Board
  unfolding new_artifact with_artifact update_last runs
  finish_attempt phase kind outcome req task board attempt =
      let a =
        new_artifact task attempt.id phase kind outcome req.artifact_label req.artifact_value in
      if is_empty kind
      then (
        task,
        record board { attempts = update_last (runs task.id phase) completed board.attempts },
      )
      else (
        with_artifact a task,
        record board {
          artifacts = board.artifacts ++ a ∷ [];
          attempts = update_last (runs task.id phase) (λ p. completed (attach a p)) board.attempts;
        },
      )

  -- `completeProjectControlTaskPhase`.
  unfoldable pub complete_phase : TaskUpdate → Task → Board → Answer (Task × Board)
  unfolding normalize_phase_id normalize_outcome normal refresh runbook_for find_phase find_last
      runs takes_kind outcome_passes missing_evidence next_phase same_phase finish_attempt
  complete_phase req task board = do
    let t = refresh board.artifacts task
    phase ← find_requested (requested_phase req.phase_id t) t
    attempt ← or_refuse (find_last (runs t.id phase.id) board.attempts) no_running_attempt
    let kind = normal req.artifact_kind
    let outcome = normalize_outcome req.artifact_outcome
    takes_kind phase kind
    guard (is_empty kind || outcome_passes kind outcome) outcome_refused
    guard
        (not (same_phase phase.id PhaseId.final_validation)
          || is_nil (missing_evidence t.id board.artifacts (runbook_for t) kind outcome))
        missing_rules
    next ← or_refuse (next_phase (runbook_for t) phase.id) no_next_phase
    let (t', board') = finish_attempt phase.id kind outcome req t board attempt
    granted (advanced next board'.artifacts t', board')
