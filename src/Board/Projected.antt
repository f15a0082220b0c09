-- ===== src/Board/Projected.antt =====
-- Decisions that were answered in the control plane, as they are applied to the board: `applyTaskProjection`
-- and `applyProjectedTaskDecision` of internal/server/task_projector.go. A checkpoint that the
-- control plane knows is decided on this path, without the tests of `decide`; `decide` is what
-- remains for the others. Of the recorded events only the ids are kept. The fingerprint that a
-- dispatch keeps is an argument.
pub mod Agreement
pub mod Again
use roambench.Base.{
  ◌+◌, Bool, true, false, ◌&&◌, ◌||◌, none, some, List, [], ◌∷◌, ◌++◌, find, if◌then◌else◌,
}
use roambench.Base.Text.{Text, codes, text_eq, trim_space, contains}
use roambench.ControlPlane.Db.{Interaction, Response, Projection, Db}
use roambench.ControlPlane.Interactions.{at_request}
use roambench.Board.{
  Task, Board, Answer, granted, refused, ◌>>=◌, ◌>>◌, task_not_found, unsupported_action,
  request_not_found,
}
use roambench.Board.Words.{TaskState, Acceptance, DispatchState}
use roambench.Board.Phases.{or_refuse}
use roambench.Board.Checkpoints.{final_acceptance, archive_override, dispatch, update_first}
use roambench.Board.Decide.{of_task}

abbrev pub is_approval : Text → Bool
is_approval action =
    text_eq action (codes "approve")
    || text_eq action (codes "approve_once")
    || text_eq action (codes "approve_session")

abbrev pub is_rejection : Text → Bool
is_rejection action =
    text_eq action (codes "reject") || text_eq action (codes "reject_with_feedback")

abbrev pub is_reroute : Text → Bool
is_reroute action = text_eq action (codes "reroute") || text_eq action (codes "request_changes")

-- The case "final_acceptance" of the switch.
unfoldable pub accepted_or_not : Text → Text → Task → Answer Task
accepted_or_not action decision task =
    if is_approval action
    then granted
        (record task { acceptance_status = Acceptance.accepted; acceptance_decision_id = decision })
    else if is_rejection action
    then granted (record task {
      state = TaskState.running;
      acceptance_status = Acceptance.rejected;
      acceptance_decision_id = decision;
    })
    else if is_reroute action
    then granted (record task {
      state = TaskState.blocked;
      acceptance_status = Acceptance.not_ready;
      acceptance_decision_id = [];
    })
    else refused unsupported_action

-- The case "archive_override".
unfoldable pub archived_or_not : Text → Text → Task → Answer Task
archived_or_not action decision task =
    if is_approval action
    then granted (record task {
      state = TaskState.archived;
      acceptance_status = Acceptance.not_ready;
      acceptance_decision_id = [];
      archive_decision_id = decision;
    })
    else if is_rejection action
    then granted (record task { archive_decision_id = decision })
    else refused unsupported_action

-- The case "dispatch".
unfoldable pub dispatched_or_not : Text → Task → Answer Task
dispatched_or_not action task =
    if is_approval action
    then granted (record task { dispatch_state = DispatchState.ready })
    else if is_rejection action
    then granted (record task { dispatch_state = DispatchState.undispatched })
    else refused unsupported_action

-- `applyProjectedTaskDecision`.
unfoldable pub apply_decision : Text → Text → Text → Task → Answer Task
apply_decision kind action decision task =
    if text_eq kind final_acceptance
    then accepted_or_not action decision task
    else if text_eq kind archive_override
    then archived_or_not action decision task
    else if text_eq kind dispatch
    then dispatched_or_not action task
    else granted task

abbrev pub is_ready : DispatchState → Bool
is_ready DispatchState.ready = true
is_ready _ = false

-- `event-projection-` with the id of the decision.
abbrev pub projection_event : Text → Text
projection_event decision = codes "event-projection-" ++ decision

-- An event is recorded where it is missing.
unfoldable pub record_missing : Text → List Text → List Text
record_missing id events = if contains events id then events else events ++ id ∷ []

-- `appendProjectedDecisionEvents`.
unfoldable pub decision_events : Text → List Text → List Text
decision_events decision events =
    record_missing (codes "event-projection-z-decision-action-" ++ decision) (
      record_missing (codes "event-projection-decision-made-" ++ decision)
        (record_missing (codes "event-projection-checkpoint-resolved-" ++ decision) events))

abbrev pub at_response : Text → Text → Response → Bool
at_response user id p = text_eq p.username user && text_eq p.response_id id

module _ (fingerprint : Board → Task → Answer Text) where
  -- The baseline of a task that becomes ready to be claimed.
  unfoldable pub with_baseline : Text → Board → Task → Answer Task
  with_baseline kind board task =
      let changed = record board {
        tasks = update_first (of_task task.id) (λ _. task) board.tasks;
      } in
      if text_eq kind dispatch && is_ready task.dispatch_state
      then fingerprint changed task >>= (λ b. granted (record task { acceptance_baseline = b }))
      else granted task

  -- The decision is made on the task.
  unfoldable pub project_once :
      Interaction → Response → Text → Task → List Text → Board → Answer (List Text × Board)
  project_once r p decision task events board = do
    decided ← apply_decision r.request_kind p.input.action p.response_id task
    based ← with_baseline r.request_kind board decided
    let task' = record based { row_version = based.row_version + 1 }
    granted (
      decision_events decision (events ++ projection_event decision ∷ []),
      record board { tasks = update_first (of_task r.task_id) (λ _. task') board.tasks },
    )

  -- The decision on a task that was found; one whose event is recorded was made before.
  unfoldable pub project_task :
      Interaction → Response → Text → Task → List Text → Board → Answer (List Text × Board)
  project_task r p decision task events board =
      if contains events (projection_event decision)
      then granted (decision_events decision events, board)
      else project_once r p decision task events board

  -- `applyTaskProjection`: the events and the board after it.
  unfoldable pub apply_task_projection :
      Text → Projection → Db → List Text → Board → Answer (List Text × Board)
  apply_task_projection user projection db events board = do
    r ←
        or_refuse
          (find (at_request (trim_space user) (trim_space projection.request_id)) db.interactions)
          request_not_found
    p ←
        or_refuse
          (find (at_response (trim_space user) (trim_space projection.response_id)) db.responses)
          request_not_found
    task ← or_refuse (find (of_task r.task_id) board.tasks) task_not_found
    project_task r p projection.decision_id task events board
