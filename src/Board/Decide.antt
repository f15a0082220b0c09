-- ===== src/Board/Decide.antt =====
-- Decisions on checkpoints: `recordCheckpointDecision` of internal/server/project_control.go, as it changes
-- the board in the callback of `withStateLocked`; what that function does around it (loading the
-- approvals, pauses, normalizing, saving, revoking claims) is not here. It is used for the
-- checkpoints that the control plane does not know; the others are in Projected. The fingerprint that a dispatch keeps is an argument.
pub mod Inversion
pub mod Outcome
pub mod Verdict
use roambench.Base.{
  ℕ, ◌+◌, Bool, true, false, ◌&&◌, ◌||◌, not, Option, none, some, List, [], ◌∷◌, ◌++◌,
  if◌then◌else◌, find, ⊤,
}
use roambench.Base.Text.{Text, codes, text_eq, contains}
use roambench.Board.{
  Task, Checkpoint, Decision, Board, Answer, Refusal, granted, refused, ◌>>=◌, ◌>>◌, invalid_action,
  checkpoint_not_found, checkpoint_closed, action_refused, needs_completion, missing_rules,
  task_not_found,
}
use roambench.Board.Words.{TaskState, Acceptance, DispatchState, CheckpointStatus, normal}
use roambench.Board.Evidence.{still_missing}
use roambench.Board.Phases.{Host, guard, or_refuse}
use roambench.Board.Phases.Steps.{is_nil}
use roambench.Board.Checkpoints.{
  is_pending, final_acceptance, archive_override, dispatch, update_first, sync_all,
}

pub data Verb : Type 0 where
  approve reject reroute : Verb

abbrev pub verb_text : Verb → Text
verb_text Verb.approve = codes "approve"
verb_text Verb.reject = codes "reject"
verb_text Verb.reroute = codes "reroute"

unfoldable pub read_verb : Text → Option Verb
unfolding normal
read_verb action =
    let v = normal action in
    if text_eq v (codes "approve")
    then some Verb.approve
    else if text_eq v (codes "reject")
    then some Verb.reject
    else if text_eq v (codes "reroute")
    then some Verb.reroute
    else none

abbrev pub is_final : Checkpoint → Bool
is_final c = text_eq c.kind final_acceptance

abbrev pub is_override : Checkpoint → Bool
is_override c = text_eq c.kind archive_override

abbrev pub is_dispatch : Checkpoint → Bool
is_dispatch c = text_eq c.kind dispatch

abbrev pub is_complete : TaskState → Bool
is_complete TaskState.execution_complete = true
is_complete _ = false

abbrev pub of_task : Text → Task → Bool
of_task id t = text_eq t.id id

-- `validateProjectControlFinalAcceptanceApproval`.
unfoldable pub validate_approval : Checkpoint → Board → Answer Task
validate_approval c board = do
  task ← or_refuse (find (of_task c.task_id) board.tasks) task_not_found
  guard (is_complete task.state) needs_completion
  guard (is_nil (still_missing task board.artifacts)) missing_rules
  granted task

abbrev pub verb_status : Verb → CheckpointStatus
verb_status Verb.approve = CheckpointStatus.approved
verb_status Verb.reject = CheckpointStatus.rejected
verb_status Verb.reroute = CheckpointStatus.rerouted

-- `decisionAction`.
unfoldable pub decision_type : Verb → Checkpoint → Text
decision_type Verb.approve c =
    if is_override c
    then codes "archive_override_approved"
    else if is_final c
    then codes "final_acceptance_approved"
    else codes "checkpoint_approved"
decision_type Verb.reject c =
    if is_override c
    then codes "archive_override_rejected"
    else if is_final c
    then codes "final_acceptance_rejected"
    else codes "checkpoint_rejected"
decision_type Verb.reroute c = codes "checkpoint_rerouted"

-- The checkpoint with its decision.
abbrev pub resolve : Verb → Text → Checkpoint → Checkpoint
resolve verb decision c = record c {
  status = verb_status verb;
  allowed_actions = [];
  resolved_by_decision_id = decision;
  row_version = c.row_version + 1;
}

-- What the decision makes of the task, but for the dispatch.
unfoldable pub judged : Verb → Checkpoint → Text → Task → Task
judged Verb.approve c decision task =
    if is_override c
    then record task {
      state = TaskState.archived;
      acceptance_status = Acceptance.not_ready;
      acceptance_decision_id = [];
      archive_decision_id = decision;
    }
    else record task { acceptance_status = Acceptance.accepted; acceptance_decision_id = decision }
judged Verb.reject c decision task =
    if is_override c then record task { archive_decision_id = decision } else record task {
      state = TaskState.running;
      acceptance_status = Acceptance.rejected;
      acceptance_decision_id = decision;
    }
judged Verb.reroute c decision task = record task {
  state = TaskState.blocked;
  acceptance_status = Acceptance.not_ready;
  acceptance_decision_id = [];
}

-- The part of a decision that concerns the dispatch of the task.
unfoldable pub dispatch_decided :
    (Board → Task → Answer Text) → Verb → Checkpoint → Board → Task → Answer Task
dispatch_decided fingerprint Verb.approve c board task =
    if is_dispatch c
    then (fingerprint board task >>= λ baseline.
        granted
          (record task { acceptance_baseline = baseline; dispatch_state = DispatchState.ready }))
    else granted task
dispatch_decided fingerprint Verb.reject c board task =
    granted
      (if is_dispatch c then record task { dispatch_state = DispatchState.undispatched } else task)
dispatch_decided fingerprint Verb.reroute c board task = granted task

-- What has to hold of a checkpoint for the decision.
unfoldable pub may_decide : Verb → Checkpoint → Board → Answer ⊤
unfolding validate_approval contains
may_decide verb c board = do
  guard (is_pending c.status) checkpoint_closed
  guard (contains c.allowed_actions (verb_text verb)) action_refused
  elim verb [
    | Verb.approve ↦ if is_final c then validate_approval c board >> granted tt else granted tt
    | Verb.reject ↦ granted tt
    | Verb.reroute ↦ guard (not (is_override c)) action_refused
  ]

module _ (host : Host) where
  abbrev pub new_decision : Verb → Checkpoint → Decision
  new_decision verb c = record {
    id = host.new_id (codes "decision") (decision_type verb c);
    decision_type = decision_type verb c;
    task_id = c.task_id;
    checkpoint_id = c.id;
  }

  -- The board with the decision, before the task is changed.
  abbrev pub with_decision : Verb → Checkpoint → Board → Board
  with_decision verb c board = record board {
    decisions = board.decisions ++ new_decision verb c ∷ [];
    checkpoints =
        update_first (λ d. text_eq d.id c.id) (λ _. resolve verb (new_decision verb c).id c)
          board.checkpoints;
  }

  module _ (fingerprint : Board → Task → Answer Text) where
    -- The task with the decision goes back to its place after the synchronizations.
    unfoldable pub settle_task : Verb → Checkpoint → Task → Board → Answer Board
    unfolding judged dispatch_decided sync_all update_first
    settle_task verb c task board = do
      decided ←
          dispatch_decided fingerprint verb c board (judged verb c (new_decision verb c).id task)
      let task' = record decided { row_version = decided.row_version + 1 }
      let synced = sync_all host task' board
      granted (record synced { tasks = update_first (of_task c.task_id) (λ _. task') synced.tasks })

    -- `recordCheckpointDecision`; a checkpoint whose task is gone is only resolved.
    unfoldable pub decide : Text → Text → Board → Answer Board
    unfolding read_verb may_decide decision_type update_first settle_task
    decide checkpoint_id action board = do
      verb ← or_refuse (read_verb action) invalid_action
      c ← or_refuse (find (λ c. text_eq c.id checkpoint_id) board.checkpoints) checkpoint_not_found
      may_decide verb c board
      let board' = with_decision verb c board
      elim (find (of_task c.task_id) board'.tasks) [
        | none ↦ granted board'
        | some task ↦ settle_task verb c task board'
      ]
