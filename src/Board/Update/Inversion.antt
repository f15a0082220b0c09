-- ===== src/Board/Update/Inversion.antt =====
-- What an update that was granted has passed.
use roambench.Base.{ℕ, ◌+◌, ◌≡◌, sym, true, ◌&&◌, ◌||◌, some, find, leb, ◌==◌}
use roambench.Base.Text.{Text, codes, text_eq}
use roambench.ControlPlane.Claims.{ClaimTable}
use roambench.Board.{
  Task, Board, TaskUpdate, granted, bind-granted, granted-injective, version_required,
  task_not_found, version_conflict,
}
use roambench.Board.Words.{normal}
use roambench.Board.Phases.{Host, guard, or_refuse}
use roambench.Board.Phases.Inversion.{or_refuse-granted, guard-granted}
use roambench.Board.Checkpoints.{update_first, sync_all}
use roambench.Board.Decide.{of_task}
use roambench.Board.Update.Actions.{apply_action}
use roambench.Board.Update.{
  change_contract, admits, is_accepted, set_levels, set_pause, set_state, set_acceptance,
  ask_override, run_action, finish_update, prepare, perform, update_task,
}

-- The steps that follow the action.
pub record Finishes (host : Host) (action : Text) (req : TaskUpdate) (original task : Task)
    (board board' : Board) : Type 0 where
  pub moved : Task
  pub judged : Task
  pub asked : Board
  pub moves :
      set_state original.state req.state (set_pause action (set_levels req task)) ≡ granted moved
  pub judges :
      set_acceptance
        (text_eq action (codes "unarchive") && is_accepted original.acceptance_status)
        original.acceptance_status
        req.acceptance_status
        board
        moved
      ≡ granted judged
  pub asks : ask_override host action original judged board ≡ granted asked
  pub result :
      board'
      ≡ record (sync_all host (record judged { row_version = judged.row_version + 1 }) asked) {
        tasks =
            update_first
              (of_task original.id)
              (λ _. record judged { row_version = judged.row_version + 1 })
              (sync_all host (record judged { row_version = judged.row_version + 1 }) asked).tasks;
      }

pub finish_update-granted :
    (host : Host) (action : Text) (req : TaskUpdate) (original task : Task) (board board' : Board)
    → finish_update host action req original task board ≡ granted board'
    → Finishes host action req original task board board'
unfolding finish_update
finish_update-granted host action req original task board board' e =
    let (moved, h1, e1) =
      bind-granted (set_state original.state req.state (set_pause action (set_levels req task))) _
        board' e in
    let reopens = text_eq action (codes "unarchive") && is_accepted original.acceptance_status in
    let (judged, h2, e2) =
      bind-granted
        (set_acceptance reopens original.acceptance_status req.acceptance_status board moved) _
        board' e1 in
    let (asked, h3, e3) =
      bind-granted (ask_override host action original judged board) _ board' e2 in
    record {
      moved = moved;
      judged = judged;
      asked = asked;
      moves = h1;
      judges = h2;
      asks = h3;
      result = sym (granted-injective _ _ e3);
    }

pub record Prepares (task_id : Text) (req : TaskUpdate) (board : Board) (task : Task) : Type 0 where
  pub stored : Task
  pub found : find (of_task task_id) board.tasks ≡ some stored
  pub version : (req.agent_bypass || req.expected_row_version == stored.row_version) ≡ true
  pub contract : change_contract req board stored ≡ granted task

pub prepare-granted :
    (task_id : Text) (req : TaskUpdate) (board : Board) (task : Task)
    → prepare task_id req board ≡ granted task
    → Prepares task_id req board task
unfolding prepare
prepare-granted task_id req board task e =
    let (_, _, e1) =
      bind-granted (guard (req.agent_bypass || leb 1 req.expected_row_version) version_required) _
        task e in
    let (stored, h2, e2) =
      bind-granted (or_refuse (find (of_task task_id) board.tasks) task_not_found) _ task e1 in
    let (u, h3, e3) =
      bind-granted
        (guard (req.agent_bypass || req.expected_row_version == stored.row_version)
          version_conflict)
        _ task e2 in
    record {
      stored = stored;
      found = or_refuse-granted _ _ stored h2;
      version = guard-granted _ _ u h3;
      contract = e3;
    }

-- What an update that was admitted does.
pub record Performs (host : Host) (req : TaskUpdate) (task : Task) (board board' : Board)
    : Type 0 where
  pub asks : TaskUpdate
  pub acted : Task
  pub between : Board
  pub read : apply_action (normal req.action) task req ≡ granted asks
  pub runs : run_action host (normal req.action) asks task board ≡ granted (acted, between)
  pub ends : Finishes host (normal req.action) asks task acted between board'

pub perform-granted :
    (host : Host) (req : TaskUpdate) (task : Task) (board board' : Board)
    → perform host req task board ≡ granted board'
    → Performs host req task board board'
unfolding perform
perform-granted host req task board board' e =
    let (asks, h1, e1) = bind-granted (apply_action (normal req.action) task req) _ board' e in
    let (out, h2, e2) =
      bind-granted (run_action host (normal req.action) asks task board) _ board' e1 in
    record {
      asks = asks;
      acted = out.0;
      between = out.1;
      read = h1;
      runs = h2;
      ends = finish_update-granted host (normal req.action) asks task out.0 out.1 board' e2;
    }

pub update_task-granted :
    (host : Host) (now : ℕ) (user : Text) (claims : ClaimTable) (task_id : Text) (req : TaskUpdate)
    (board board' : Board)
    → update_task host now user claims task_id req board ≡ granted board'
    → (task : Task) × Prepares task_id req board task
      × (admits now user claims req board task ≡ granted tt)
      × Performs host req task board board'
unfolding update_task
update_task-granted host now user claims task_id req board board' e =
    let (task, h1, e1) = bind-granted (prepare task_id req board) _ board' e in
    let (_, h2, e2) = bind-granted (admits now user claims req board task) _ board' e1 in
    (
      task,
      prepare-granted task_id req board task h1,
      h2,
      perform-granted host req task board board' e2,
    )
