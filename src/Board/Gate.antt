-- ===== src/Board/Gate.antt =====
-- The entrance to execution: `taskClaimAllowed`, `executionGate` and `requireManagedLease` of
-- internal/server/project_lifecycle.go, with the leases of internal/controlplane/claims.go. The clock
-- is an argument; the store of claims is there.
pub mod Lease
use roambench.Base.{
  ℕ, Bool, true, false, ◌&&◌, ◌||◌, not, Option, none, some, List, [], ◌∷◌, if◌then◌else◌, ltb, ⊤,
}
use roambench.Base.Text.{Text, codes, text_eq, is_empty}
use roambench.ControlPlane.Errors.{ok, err}
use roambench.ControlPlane.Claims.{
  ClaimTable, TaskClaim, is_active, active_claim_for_task, get_claim,
}
use roambench.Board.{
  Task, Project, Board, Answer, granted, refused, execution_paused, lease_required,
}
use roambench.Board.Words.{TaskState}
use roambench.Board.Phases.{is_managed, is_claimed, guard}
use roambench.Board.Contract.{find_project, dependencies_passed, has_command}

-- `isHighRisk`.
abbrev pub is_high_risk : Text → Bool
is_high_risk level = text_eq level (codes "high") || text_eq level (codes "critical")

-- The states in which a task may be worked on.
abbrev pub is_open : TaskState → Bool
is_open TaskState.execution_complete = false
is_open TaskState.archived = false
is_open TaskState.cancelled = false
is_open _ = true

-- What `taskClaimAllowed` asks of the project of a task that an agent raised.
unfoldable pub project_executes : Project → Task → Bool
project_executes p task =
    text_eq p.takeover_mode (codes "active")
    && text_eq p.lifecycle_state (codes "executing")
    && has_command task
    && (is_empty p.lifecycle_milestone_id || text_eq task.milestone_id p.lifecycle_milestone_id)

-- `taskClaimAllowed`. A task without a project is as one whose takeover is not active.
unfoldable pub claim_allowed : Board → Task → Bool
unfolding find_project dependencies_passed project_executes
claim_allowed board task =
    is_empty task.pause_reason
    && not (is_high_risk task.risk_level)
    && (if text_eq task.origin (codes "agent")
        then elim (find_project board task.project_id) [
          | none ↦ false
          | some p ↦ project_executes p task
        ]
        else is_open task.state)
    && dependencies_passed board.tasks task.depends_on

-- The lease is on the task and runs at this time.
abbrev pub covers : ℕ → Task → TaskClaim → Bool
covers now task c = text_eq c.task_id task.id && is_active c.status && ltb now c.lease_expires_at

-- The user executes a task of a project in manual mode by hand, unless it is paused.
abbrev pub by_hand : Board → Task → Bool
by_hand board task = elim (find_project board task.project_id) [
  | none ↦ false
  | some p ↦ text_eq p.takeover_mode (codes "manual") && is_empty task.pause_reason
]

module _ (now : ℕ) (user : Text) (claims : ClaimTable) where
  -- `executionGate`.
  unfoldable pub execution_gate : Board → Task → Answer ⊤
  unfolding is_managed claim_allowed active_claim_for_task find_project
  execution_gate board task =
      if not (is_managed board task) || by_hand board task
      then granted tt
      else if not (claim_allowed board task) || not (is_claimed task.dispatch_state)
      then refused execution_paused
      else elim (active_claim_for_task user task.id claims) [
        | err e ↦ refused lease_required
        | ok c ↦ guard (ltb now c.lease_expires_at) lease_required
      ]

  -- `requireManagedLease`.
  unfoldable pub require_lease : Text → Board → Task → Answer ⊤
  unfolding is_managed claim_allowed get_claim
  require_lease lease board task =
      if not (is_managed board task)
      then granted tt
      else if not (claim_allowed board task) || not (is_claimed task.dispatch_state)
      then refused execution_paused
      else elim (get_claim user lease claims) [
        | err e ↦ refused lease_required
        | ok c ↦ guard (covers now task c) lease_required
      ]
