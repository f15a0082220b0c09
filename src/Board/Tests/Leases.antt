-- ===== src/Board/Tests/Leases.antt =====
-- Updates of a task that an agent holds.
use roambench.Base.{◌<◌, ◌≡◌, refl, true, false, inl, inr, some, [], ◌∷◌, find}
use roambench.Base.Text.{codes, text_eq, trim_space, to_lower, contains}
use roambench.ControlPlane.Errors.{ok}
use roambench.ControlPlane.Claims.{TaskClaim, active_claim_for_task}
use roambench.Board.{Board, granted}
use roambench.Board.Words.{normal, normalize_phase_id, same_phase}
use roambench.Board.Runbook.{
  choose_skill, find_skill, choose_runbook, default_for, find_runbook, allows_runbook, runbook_for,
  find_phase, infer_current_phase, infer_runbook_state,
}
use roambench.Board.Evidence.{
  outcome_passes, requirement, proves, extra_proves, lacks, missing_evidence, refresh,
}
use roambench.Board.Phases.{
  append_unique, agent_type, state_for_phase, is_writable, shared_directory_conflict, is_managed,
  is_claimed, runs, find_last, can_start_phase,
}
use roambench.Board.Phases.Workspace.{workspace_kind, normalize_workspace_kind, workspace_ref}
use roambench.Board.Phases.Steps.{start_phase}
use roambench.Board.Checkpoints.{
  waits, update_first, auto_approve, needs_approval, sync_acceptance, sync_override, sync_dispatch,
  sync_all,
}
use roambench.Board.Decide.{of_task}
use roambench.Board.Contract.{find_project, dependencies_passed}
use roambench.Board.Gate.{project_executes, claim_allowed, by_hand, execution_gate}
use roambench.Board.Update.Actions.{read_action, apply_action}
use roambench.Board.Update.{
  normalize_level, changes_contract, change_contract, admits, set_levels, set_pause, set_state,
  set_acceptance, ask_override, run_action, finish_update, prepare, perform, update_task,
}
use roambench.Board.Update.Entrance.{IsExecution, update_task-leased}
use roambench.Board.Tests.{test_host, request, granted_or}
use roambench.Board.Tests.Contracts.{claimed_task, claimed_board, lease, claimed_managed}

abbrev started_board : Board
started_board = granted_or claimed_board (
    update_task test_host 9 (codes "ann") (lease ∷ []) (codes "t") (request (codes "start_phase"))
      claimed_board)

start_runs :
    update_task test_host 9
      (codes "ann")
      (lease ∷ [])
      (codes "t")
      (request (codes "start_phase"))
      claimed_board
    ≡ granted started_board
unfolding update_task prepare admits perform change_contract contains text_eq trim_space to_lower
    normal normalize_phase_id same_phase choose_skill find_skill choose_runbook default_for
    find_runbook allows_runbook runbook_for find_phase infer_current_phase infer_runbook_state
    outcome_passes requirement proves extra_proves lacks missing_evidence refresh append_unique
    agent_type state_for_phase is_writable shared_directory_conflict is_managed runs find_last
    can_start_phase workspace_kind normalize_workspace_kind workspace_ref start_phase waits
    update_first auto_approve needs_approval sync_acceptance sync_override sync_dispatch sync_all
    read_action apply_action normalize_level set_levels set_pause set_state set_acceptance
    ask_override run_action finish_update execution_gate active_claim_for_task claim_allowed
    find_project project_executes dependencies_passed
start_runs = refl

claimed_found : find (of_task (codes "t")) claimed_board.tasks ≡ some claimed_task
unfolding text_eq
claimed_found = refl

claimed_agents : by_hand claimed_board claimed_task ≡ false
unfolding find_project text_eq
claimed_agents = refl

start-IsExecution : IsExecution (codes "start_phase")
start-IsExecution = inr (inl refl)

update_task-leased_example :
    (c : TaskClaim) × (active_claim_for_task (codes "ann") (codes "t") (lease ∷ []) ≡ ok c)
    × (9 < c.lease_expires_at)
    × (claim_allowed claimed_board claimed_task ≡ true)
    × (is_claimed claimed_task.dispatch_state ≡ true)
    × (changes_contract (request (codes "start_phase")) ≡ false)
update_task-leased_example =
    update_task-leased test_host 9 (codes "ann") (lease ∷ []) (codes "t")
      (request (codes "start_phase")) claimed_board started_board claimed_task start_runs
      claimed_found start-IsExecution claimed_managed claimed_agents
