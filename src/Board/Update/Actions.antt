-- ===== src/Board/Update/Actions.antt =====
-- The actions of `applyProjectControlTaskAction` in internal/server/project_control.go, which rewrite the
-- request that they stand in.
use roambench.Base.{◌||◌, Option, none, some, List, [], ◌∷◌, if◌then◌else◌}
use roambench.Base.Text.{Text, codes, text_eq, is_empty, trim_space, contains}
use roambench.Board.{Task, TaskUpdate, Answer, granted, refused, invalid_action}
use roambench.Board.Words.{Acceptance}

-- The actions of the runbook, which `isProjectControlPhaseAction` knows.
abbrev pub phase_actions : List Text
phase_actions =
    codes "start_phase"
    ∷ codes "complete_phase"
    ∷ codes "fail_phase"
    ∷ codes "run_tool"
    ∷ codes "start_execution"
    ∷ []

-- The actions that the gate looks at.
abbrev pub gated_actions : List Text
gated_actions =
    codes "start_execution" ∷ codes "start_phase" ∷ codes "run_tool" ∷ codes "complete_phase" ∷ []

-- A request with another state, and another acceptance status.
abbrev asks_state : Text → TaskUpdate → TaskUpdate
asks_state state req = record req { state = state }

abbrev asks_both : Text → Text → TaskUpdate → TaskUpdate
asks_both state acceptance req = record req { state = state; acceptance_status = acceptance }

-- What the action makes of the request; `none` for a word that is no action.
unfoldable pub read_action : Text → Task → TaskUpdate → Option TaskUpdate
unfolding contains
read_action action task req =
    if text_eq action (codes "pause_task") || text_eq action (codes "resume_task")
    then some req
    else if text_eq action (codes "cancel_task")
    then some (asks_both (codes "cancelled") (codes "not_ready") req)
    else if text_eq action (codes "queue_task")
    then some (asks_both (codes "queued") (codes "not_ready") req)
    else if text_eq action (codes "resume_execution") || text_eq action (codes "reopen_task")
    then some (asks_both (codes "running") (codes "not_ready") req)
    else if text_eq action (codes "request_human_input")
    then some (asks_state (codes "waiting_human") req)
    else if text_eq action (codes "mark_waiting_review")
    then some (asks_state (codes "waiting_review") req)
    else if text_eq action (codes "mark_blocked")
    then some (asks_state (codes "blocked") req)
    else if text_eq action (codes "mark_execution_complete")
        || text_eq action (codes "request_archive_override")
    then some (asks_state (codes "execution_complete") req)
    else if text_eq action (codes "mark_ready_for_acceptance")
    then some (asks_both (codes "execution_complete") (codes "ready_for_acceptance") req)
    else if text_eq action (codes "request_acceptance_review")
    then some (asks_both (codes "execution_complete") (codes "under_human_review") req)
    else if text_eq action (codes "archive")
    then some (asks_state (codes "archived") req)
    else if text_eq action (codes "unarchive")
    then some (elim task.acceptance_status [
      | Acceptance.accepted ↦ asks_state (codes "planned") req
      | _ ↦ asks_both (codes "planned") (codes "not_ready") req
    ])
    else if contains phase_actions action
    then some req
    else none

-- A blank priority or risk level is the task's own.
abbrev with_defaults : Task → TaskUpdate → TaskUpdate
with_defaults task req = record req {
  priority = if is_empty (trim_space req.priority) then task.priority else req.priority;
  risk_level = if is_empty (trim_space req.risk_level) then task.risk_level else req.risk_level;
}

-- `applyProjectControlTaskAction`. The pause that an action asks for is read off the action later.
unfoldable pub apply_action : Text → Task → TaskUpdate → Answer TaskUpdate
unfolding read_action
apply_action action task req =
    if is_empty action then granted req else elim (read_action action task req) [
      | none ↦ refused invalid_action
      | some req' ↦ granted (with_defaults task req')
    ]
