-- ===== src/Board/Update.antt =====
-- Updates of a task: `updateTask` of internal/server/project_control.go, as it changes the board
-- in the callback of `withStateLocked`; what that function does around it (loading the approvals,
-- pauses, normalizing, saving, revoking claims) is not here.
pub mod Rules
pub mod Actions
pub mod Inversion
pub mod Kept
pub mod Verdicts
pub mod Entrance
use roambench.Base.{
  ℕ, ◌+◌, Bool, true, false, ◌&&◌, ◌||◌, not, Option, none, some, List, [], ◌∷◌, if◌then◌else◌,
  find, leb, ◌==◌, ⊤,
}
use roambench.Base.Text.{Text, codes, text_eq, is_empty, trim_space, contains}
use roambench.ControlPlane.Claims.{ClaimTable}
use roambench.Board.{
  Task, Board, TaskUpdate, Answer, granted, refused, ◌>>=◌, ◌>>◌, version_required,
  version_conflict, task_not_found, direct_state, illegal_transition, not_accepted, missing_rules,
  override_refused, executing_contract,
}
use roambench.Board.Words.{
  TaskState, Acceptance, PhaseId, DispatchState, normal, normalize_task_state, normalize_acceptance,
  state_text, acceptance_text, phase_text,
}
use roambench.Board.Runbook.{RunbookPhase, runbook_for, find_phase}
use roambench.Board.Evidence.{still_missing, refresh}
use roambench.Board.Phases.{Host, guard, or_refuse, is_claimed}
use roambench.Board.Phases.Steps.{is_nil, start_phase, complete_phase, fail_phase}
use roambench.Board.Tools.{tools_for, tool_for_phase, start_tool}
use roambench.Board.Checkpoints.{update_first, sync_all, request_override}
use roambench.Board.Decide.{of_task, is_complete}
use roambench.Board.Contract.{validate_contract}
use roambench.Board.Gate.{execution_gate, require_lease}
use roambench.Board.Update.Rules.{may_move, validate_acceptance}
use roambench.Board.Update.Actions.{phase_actions, gated_actions, apply_action}

-- `normalizeProjectControlPriority`, and `normalizeProjectControlRisk`, which is the same.
unfoldable pub normalize_level : Text → Text
unfolding normal contains
normalize_level value =
    if contains (codes "low" ∷ codes "medium" ∷ codes "high" ∷ codes "critical" ∷ []) (normal value)
    then normal value
    else codes "medium"

abbrev pub changes_contract : TaskUpdate → Bool
changes_contract req = elim req.acceptance_command [
  | some _ ↦ true
  | none ↦ elim req.depends_on [
    | some _ ↦ true
    | none ↦ elim req.milestone_id [ some _ ↦ true | none ↦ false ]
  ]
]

abbrev given {ℓ} : {A : Type ℓ} → Option A → A → A
given none a = a
given (some b) a = b

abbrev with_contract : TaskUpdate → Task → Task
with_contract req task = record task {
  acceptance_command = given req.acceptance_command task.acceptance_command;
  depends_on = given req.depends_on task.depends_on;
  milestone_id = given req.milestone_id task.milestone_id;
}

-- A valid new contract takes the task back from the dispatch.
unfoldable renew_contract : TaskUpdate → Board → Task → Answer Task
unfolding validate_contract
renew_contract req board task = do
  validate_contract board (with_contract req task)
  granted (record task {
    acceptance_command = given req.acceptance_command task.acceptance_command;
    depends_on = given req.depends_on task.depends_on;
    milestone_id = given req.milestone_id task.milestone_id;
    dispatch_state = DispatchState.undispatched;
    acceptance_passed = false;
  })

-- The change of a contract, which a request may ask for.
unfoldable pub change_contract : TaskUpdate → Board → Task → Answer Task
unfolding renew_contract
change_contract req board task =
    if not (changes_contract req)
    then granted task
    else if req.agent_bypass || is_claimed task.dispatch_state
    then refused executing_contract
    else renew_contract req board task

-- The tests before anything is done. The gate looks at the action as it was sent.
unfoldable pub admits : ℕ → Text → ClaimTable → TaskUpdate → Board → Task → Answer ⊤
unfolding execution_gate require_lease contains
admits now user claims req board task = do
  if req.agent_bypass then require_lease now user claims req.lease_id board task else granted tt
  if contains gated_actions req.action
      then execution_gate now user claims board task
      else granted tt
  guard
      (not (contains phase_actions (normal req.action))
        || is_empty (trim_space req.state) && is_empty (trim_space req.acceptance_status))
      direct_state

-- The first phase of an execution: the current one, unless the task is done or has none.
unfoldable pub first_phase : Task → PhaseId
unfolding runbook_for
first_phase task = elim task.current_phase [
  | some PhaseId.ready_for_acceptance ↦ elim (runbook_for task).phases [
    | [] ↦ PhaseId.ready_for_acceptance
    | p ∷ _ ↦ p.id
  ]
  | some id ↦ id
  | none ↦ elim (runbook_for task).phases [ [] ↦ PhaseId.ready_for_acceptance | p ∷ _ ↦ p.id ]
]

-- The levels that a request sets.
unfoldable pub set_levels : TaskUpdate → Task → Task
unfolding normalize_level
set_levels req task = record task {
  priority =
      if is_empty (trim_space req.priority)
      then task.priority
      else normalize_level (trim_space req.priority);
  risk_level =
      if is_empty (trim_space req.risk_level)
      then task.risk_level
      else normalize_level (trim_space req.risk_level);
}

-- A pause, and its end by a resumption or by cancelling.
unfoldable pub set_pause : Text → Task → Task
set_pause action task =
    if text_eq action (codes "pause_task")
    then record task { pause_reason = codes "paused_by_user"; row_version = task.row_version + 1 }
    else if (text_eq action (codes "resume_task") || text_eq action (codes "cancel_task"))
        && not (is_empty task.pause_reason)
    then record task { pause_reason = []; row_version = task.row_version + 1 }
    else task

abbrev pub is_accepted : Acceptance → Bool
is_accepted Acceptance.accepted = true
is_accepted _ = false

abbrev pub is_archived : TaskState → Bool
is_archived TaskState.archived = true
is_archived _ = false

-- The move to another state, from the state that the task had before its action.
unfoldable pub move_state : TaskState → TaskState → Task → Answer Task
move_state original candidate task =
    if not (may_move original candidate)
    then refused illegal_transition
    else if is_archived candidate && not (is_accepted task.acceptance_status)
    then refused not_accepted
    else granted (record task { state = candidate; archive_decision_id = [] })

-- The state that a request asks for.
unfoldable pub set_state : TaskState → Text → Task → Answer Task
set_state original value task =
    let v = trim_space value in
    if is_empty v || text_eq v (state_text task.state)
    then granted task
    else move_state original (normalize_task_state v) task

abbrev pub is_judged : Acceptance → Bool
is_judged Acceptance.accepted = true
is_judged Acceptance.rejected = true
is_judged _ = false

abbrev is_reviewable : Acceptance → Bool
is_reviewable Acceptance.ready_for_acceptance = true
is_reviewable Acceptance.under_human_review = true
is_reviewable _ = false

abbrev is_unready : Acceptance → Bool
is_unready Acceptance.not_ready = true
is_unready _ = false

-- The move to another acceptance status. `reopens` says that an accepted task is taken from the
-- archive.
unfoldable change_acceptance : Bool → Acceptance → Acceptance → Board → Task → Answer Task
unfolding validate_acceptance
change_acceptance reopens original candidate board task = do
  if reopens && is_unready candidate
      then granted tt
      else validate_acceptance original candidate task.state
  guard (not (is_reviewable candidate) || is_nil (still_missing task board.artifacts)) missing_rules
  granted (record task {
    acceptance_status = candidate;
    acceptance_decision_id =
        if not (is_judged candidate) && not reopens then [] else task.acceptance_decision_id;
    archive_decision_id = [];
  })

-- The acceptance status that a request asks for.
unfoldable pub set_acceptance : Bool → Acceptance → Text → Board → Task → Answer Task
unfolding normalize_acceptance change_acceptance
set_acceptance reopens original value board task =
    let v = trim_space value in
    if is_empty v || text_eq v (acceptance_text task.acceptance_status)
    then granted task
    else change_acceptance reopens original (normalize_acceptance v) board task

-- The task that an update starts from: found, at the version that is expected, with its new contract.
unfoldable pub prepare : Text → TaskUpdate → Board → Answer Task
unfolding change_contract
prepare task_id req board = do
  guard (req.agent_bypass || leb 1 req.expected_row_version) version_required
  stored ← or_refuse (find (of_task task_id) board.tasks) task_not_found
  guard (req.agent_bypass || req.expected_row_version == stored.row_version) version_conflict
  change_contract req board stored

module _ (host : Host) where
  -- The tool of the phase is started, where it has one; a refusal is passed over.
  unfoldable pub try_tool : PhaseId → Task × Board → Task × Board
  unfolding find_phase tools_for tool_for_phase start_tool refresh runbook_for
  try_tool id (task, board) = elim (find_phase (runbook_for task) id) [
    | none ↦ (task, board)
    | some phase ↦ elim (tool_for_phase (tools_for board) phase) [
      | none ↦ (task, board)
      | some def ↦ elim (start_tool host (phase_text id) def.id task board) [
        | granted out ↦ out
        | refused _ ↦ (refresh board.artifacts task, board)
      ]
    ]
  ]

  -- The action `start_execution`.
  unfoldable pub start_execution : Task → Board → Answer (Task × Board)
  unfolding first_phase start_phase try_tool
  start_execution task board =
      let t = record task { state = TaskState.running; acceptance_status = Acceptance.not_ready } in
      start_phase host (phase_text (first_phase t)) t board >>= λ out.
      granted (try_tool (first_phase t) out)

  -- The switch over the actions of the runbook.
  unfoldable pub run_action : Text → TaskUpdate → Task → Board → Answer (Task × Board)
  unfolding start_phase complete_phase fail_phase start_tool start_execution
  run_action action req task board =
      if text_eq action (codes "start_phase")
      then start_phase host req.phase_id task board
      else if text_eq action (codes "complete_phase")
      then complete_phase host req task board
      else if text_eq action (codes "fail_phase")
      then fail_phase req.phase_id req.failure_reason task board
      else if text_eq action (codes "run_tool")
      then start_tool host req.phase_id req.tool_id task board
      else if text_eq action (codes "start_execution")
      then start_execution task board
      else granted (task, board)

  -- The request for an override of the archive.
  unfoldable pub ask_override : Text → Task → Task → Board → Answer Board
  unfolding request_override
  ask_override action original task board =
      if not (text_eq action (codes "request_archive_override"))
      then granted board
      else if not (is_complete original.state) || not (is_unready original.acceptance_status)
      then refused override_refused
      else request_override host task board

  -- What follows the action: `original` is the task before it.
  unfoldable pub finish_update : Text → TaskUpdate → Task → Task → Board → Answer Board
  unfolding set_levels set_pause set_state set_acceptance ask_override sync_all update_first
  finish_update action req original task board = do
    moved ← set_state original.state req.state (set_pause action (set_levels req task))
    let reopens = text_eq action (codes "unarchive") && is_accepted original.acceptance_status
    judged ← set_acceptance reopens original.acceptance_status req.acceptance_status board moved
    asked ← ask_override action original judged board
    let task' = record judged { row_version = judged.row_version + 1 }
    let synced = sync_all host task' asked
    granted (record synced { tasks = update_first (of_task original.id) (λ _. task') synced.tasks })

  -- The action and what follows it.
  unfoldable pub perform : TaskUpdate → Task → Board → Answer Board
  unfolding apply_action run_action finish_update
  perform req task board = do
    req' ← apply_action (normal req.action) task req
    (acted, board') ← run_action (normal req.action) req' task board
    finish_update (normal req.action) req' task acted board'

  -- `updateTask`.
  unfoldable pub update_task : ℕ → Text → ClaimTable → Text → TaskUpdate → Board → Answer Board
  unfolding prepare admits perform
  update_task now user claims task_id req board = do
    task ← prepare task_id req board
    admits now user claims req board task
    perform req task board
