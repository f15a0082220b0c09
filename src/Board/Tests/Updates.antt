-- ===== src/Board/Tests/Updates.antt =====
-- Updates of concrete boards.
use roambench.Base.{ℕ, ◌≤◌, ◌≡◌, ◌⊎◌, refl, true, false, some, [], ◌∷◌, find}
use roambench.Base.Text.{codes, text_eq, trim_space, to_lower, contains}
use roambench.Board.{Task, Board, granted, refused, execution_paused}
use roambench.Board.Words.{TaskState, Acceptance, PhaseId, normal, normalize_phase_id, same_phase}
use roambench.Board.Runbook.{
  choose_skill, find_skill, choose_runbook, default_for, find_runbook, allows_runbook, runbook_for,
  find_phase, infer_current_phase, infer_runbook_state, has_phase, skill_for,
}
use roambench.Board.Evidence.{
  outcome_passes, requirement, proves, extra_proves, lacks, missing_evidence, refresh,
}
use roambench.Board.Phases.{
  append_unique, agent_type, state_for_phase, is_writable, shared_directory_conflict, is_managed,
  runs, find_last, can_start_phase,
}
use roambench.Board.Phases.Workspace.{workspace_kind, normalize_workspace_kind, workspace_ref}
use roambench.Board.Phases.Steps.{start_phase}
use roambench.Board.Checkpoints.{
  waits, update_first, auto_approve, needs_approval, sync_acceptance, sync_override, sync_dispatch,
  sync_all,
}
use roambench.Board.Decide.{of_task}
use roambench.Board.Contract.{find_project, dependencies_passed}
use roambench.Board.Gate.{project_executes, claim_allowed, execution_gate}
use roambench.Board.Update.Actions.{read_action, apply_action}
use roambench.Board.Update.{
  normalize_level, change_contract, admits, set_levels, set_pause, set_state, set_acceptance,
  ask_override, run_action, finish_update, prepare, perform, is_judged, update_task,
}
use roambench.Board.Update.Verdicts.{update_task-verdict}
use roambench.Board.Runbook.Selection.{runbook_for-eq-default_for}
use roambench.Board.Runbook.Paths.{Accepts, next_phase-Accepts}
use roambench.Board.Tests.{test_host, docs_task, board_of, request, granted_or}

-- A planned task of a project that is taken over by agents, and that nobody has claimed.
abbrev unclaimed : Task
unclaimed = docs_task (codes "t") TaskState.planned Acceptance.not_ready PhaseId.plan

abbrev unclaimed_board : Board
unclaimed_board = record (board_of unclaimed [] []) {
  projects =
      record {
        id = codes "p";
        milestones = [];
        takeover_mode = codes "active";
        lifecycle_state = codes "executing";
        lifecycle_milestone_id = [];
      }
      ∷ [];
}

-- Spelled as the gate knows it, the action is refused without a lease.
gate_closed :
    update_task test_host 5
      (codes "ann")
      []
      (codes "t")
      (request (codes "start_phase"))
      unclaimed_board
    ≡ refused execution_paused
unfolding update_task prepare admits change_contract contains text_eq execution_gate is_managed
    find_project project_executes claim_allowed dependencies_passed
gate_closed = refl

abbrev opened_board : Board
opened_board = granted_or unclaimed_board (
    update_task test_host 5 (codes "ann") [] (codes "t") (request (codes "START_PHASE"))
      unclaimed_board)

-- In capitals it starts the phase.
gate_open :
    update_task test_host 5
      (codes "ann")
      []
      (codes "t")
      (request (codes "START_PHASE"))
      unclaimed_board
    ≡ granted opened_board
unfolding update_task prepare admits perform change_contract contains text_eq trim_space to_lower
    normal normalize_phase_id same_phase choose_skill find_skill choose_runbook default_for
    find_runbook allows_runbook runbook_for find_phase infer_current_phase infer_runbook_state
    outcome_passes requirement proves extra_proves lacks missing_evidence refresh append_unique
    agent_type state_for_phase is_writable shared_directory_conflict is_managed runs find_last
    can_start_phase workspace_kind normalize_workspace_kind workspace_ref start_phase waits
    update_first auto_approve needs_approval sync_acceptance sync_override sync_dispatch sync_all
    read_action apply_action normalize_level set_levels set_pause set_state set_acceptance
    ask_override run_action finish_update
gate_open = refl

unclaimed_found : find (of_task (codes "t")) unclaimed_board.tasks ≡ some unclaimed
unfolding text_eq
unclaimed_found = refl

update_task-verdict_example :
    (task' : Task) × (find (of_task (codes "t")) opened_board.tasks ≡ some task')
    × ((is_judged task'.acceptance_status ≡ false)
        ⊎ (task'.acceptance_status ≡ Acceptance.not_ready))
update_task-verdict_example =
    update_task-verdict test_host 5 (codes "ann") [] (codes "t") (request (codes "START_PHASE"))
      unclaimed_board opened_board unclaimed gate_open unclaimed_found

unclaimed_phase : has_phase (runbook_for unclaimed) PhaseId.fix_or_replan ≡ true
unfolding runbook_for find_phase same_phase text_eq trim_space to_lower normal choose_skill
    find_skill choose_runbook default_for find_runbook allows_runbook
unclaimed_phase = refl

next_phase-Accepts_example :
    (n : ℕ) × (n ≤ 5) × Accepts (runbook_for unclaimed) n PhaseId.fix_or_replan
next_phase-Accepts_example = next_phase-Accepts unclaimed PhaseId.fix_or_replan unclaimed_phase

runbook_for-eq-default_for_example : runbook_for unclaimed ≡ default_for (skill_for unclaimed)
runbook_for-eq-default_for_example = runbook_for-eq-default_for unclaimed
