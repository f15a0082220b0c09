-- ===== src/Board/Checkpoints.antt =====
-- Checkpoints of internal/server/project_control.go: raised, expired and approved by the board itself,
-- after a task has changed. A synchronization gets a copy of the task, as in the code.
pub mod Pending
pub mod Reviews
use roambench.Base.{
  ℕ, ◌+◌, Bool, true, false, ◌&&◌, ◌||◌, not, List, [], ◌∷◌, ◌++◌, map, if◌then◌else◌, any,
}
use roambench.Base.Text.{Text, codes, text_eq, trim_space, to_lower}
use roambench.Board.{
  Task, Checkpoint, Board, Answer, granted, refused, override_refused, override_pending,
}
use roambench.Board.Words.{TaskState, Acceptance, DispatchState, CheckpointStatus, normal}
use roambench.Board.Phases.{Host}

abbrev pub is_pending : CheckpointStatus → Bool
is_pending CheckpointStatus.pending = true
is_pending CheckpointStatus.approved = false
is_pending CheckpointStatus.rejected = false
is_pending CheckpointStatus.rerouted = false
is_pending CheckpointStatus.expired = false

abbrev pub final_acceptance : Text
final_acceptance = codes "final_acceptance"

abbrev pub archive_override : Text
archive_override = codes "archive_override"

abbrev pub dispatch : Text
dispatch = codes "dispatch"

-- A pending checkpoint of this task and kind.
unfoldable pub waits : Text → Text → Checkpoint → Bool
waits kind task_id c = text_eq c.task_id task_id && text_eq c.kind kind && is_pending c.status

-- An update of the first element that passes the test.
unfoldable pub update_first {ℓ} : {A : Type ℓ} → (A → Bool) → (A → A) → List A → List A
update_first p f [] = []
update_first p f (x ∷ xs) = let rest = update_first p f xs in if p x then f x ∷ xs else x ∷ rest

abbrev pub new_checkpoint : Text → Text → Text → List Text → Checkpoint
new_checkpoint id task_id kind actions = record {
  id = id;
  task_id = task_id;
  kind = kind;
  status = CheckpointStatus.pending;
  resolved_by_decision_id = [];
  allowed_actions = actions;
  row_version = 1;
}

-- A checkpoint that is not pending any more, with no decision.
abbrev pub settle : CheckpointStatus → Checkpoint → Checkpoint
settle status c = record c {
  status = status;
  allowed_actions = [];
  row_version = c.row_version + 1;
}

abbrev pub keeps_override : Task → Bool
keeps_override task = elim task.state [
  | TaskState.execution_complete ↦ elim task.acceptance_status [
    | Acceptance.not_ready ↦ true
    | _ ↦ false
  ]
  | _ ↦ false
]

-- `projectControlTaskNeedsDispatchApproval`.
unfoldable pub needs_approval : Task → Bool
needs_approval task = text_eq (trim_space task.origin) (codes "agent")

-- `projectControlTaskOrigin`.
unfoldable pub task_origin : Text → Text
unfolding normal
task_origin origin =
    if text_eq (normal origin) (codes "agent") then codes "agent" else codes "human"

-- `projectControlTaskClaimable`.
unfoldable pub is_claimable : Task → Bool
unfolding needs_approval
is_claimable task = elim task.dispatch_state [
  | DispatchState.ready ↦ true
  | DispatchState.awaiting_approval ↦ not (needs_approval task)
  | _ ↦ false
]

-- `syncProjectControlArchiveOverrideCheckpoint`.
unfoldable pub sync_override : Task → Board → Board
unfolding waits update_first
sync_override task board = if keeps_override task then board else record board {
  checkpoints =
      update_first (waits archive_override task.id) (settle CheckpointStatus.expired)
        board.checkpoints;
}

-- What an automatic dispatch leaves of a task.
abbrev pub dispatched : Task → Task
dispatched task = elim task.dispatch_state [
  | DispatchState.ready ↦ task
  | DispatchState.claimed ↦ task
  | DispatchState.done ↦ task
  | _ ↦ record task { dispatch_state = DispatchState.ready; row_version = task.row_version + 1 }
]

-- `autoApproveDispatchCheckpoint`.
unfoldable pub auto_approve : Task → Board → Board
unfolding waits
auto_approve task board = record board {
  checkpoints =
      map (λ c. if waits dispatch task.id c then settle CheckpointStatus.approved c else c)
        board.checkpoints;
  tasks = map (λ t. if text_eq t.id task.id then dispatched t else t) board.tasks;
}

abbrev pub is_dispatchable : TaskState → Bool
is_dispatchable TaskState.planned = true
is_dispatchable TaskState.queued = true
is_dispatchable _ = false

abbrev pub is_undispatched : DispatchState → Bool
is_undispatched DispatchState.undispatched = true
is_undispatched _ = false

module _ (host : Host) where
  abbrev pub checkpoint_for : Task → Text → Text → List Text → Checkpoint
  checkpoint_for task seed kind actions =
      new_checkpoint (host.new_id (codes "checkpoint") (task.id ++ seed)) task.id kind actions

  -- `syncProjectControlAcceptanceCheckpoint`.
  unfoldable pub sync_acceptance : Task → Board → Board
  unfolding waits update_first
  sync_acceptance task board =
      let expired = record board {
        checkpoints =
            update_first (waits final_acceptance task.id) (settle CheckpointStatus.expired)
              board.checkpoints;
      } in
      elim task.acceptance_status [
        | Acceptance.under_human_review ↦
            if any (waits final_acceptance task.id) board.checkpoints then board else record board {
              checkpoints =
                  board.checkpoints
                  ++ checkpoint_for task (codes "-final-acceptance") final_acceptance
                      (codes "approve" ∷ codes "reject" ∷ codes "reroute" ∷ [])
                    ∷ [];
            }
        | Acceptance.ready_for_acceptance ↦ board
        | Acceptance.not_ready ↦ expired
        | Acceptance.accepted ↦ expired
        | Acceptance.rejected ↦ expired
      ]

  -- `requestProjectControlArchiveOverrideCheckpoint`.
  unfoldable pub request_override : Task → Board → Answer Board
  unfolding waits
  request_override task board = elim task.state [
    | TaskState.execution_complete ↦ elim task.acceptance_status [
      | Acceptance.accepted ↦ refused override_refused
      | Acceptance.under_human_review ↦ refused override_refused
      | _ ↦
          if any (waits archive_override task.id) board.checkpoints
          then refused override_pending
          else granted (record board {
            checkpoints =
                board.checkpoints
                ++ checkpoint_for task (codes "-archive-override") archive_override
                    (codes "approve" ∷ codes "reject" ∷ [])
                  ∷ [];
          })
    ]
    | _ ↦ refused override_refused
  ]

  -- `syncProjectControlDispatchCheckpoint`.
  unfoldable pub sync_dispatch : Task → Board → Board
  unfolding waits update_first auto_approve needs_approval
  sync_dispatch task board =
      if not (is_dispatchable task.state)
      then board
      else if not (needs_approval task)
      then auto_approve task board
      else if not (is_undispatched task.dispatch_state)
          || any (waits dispatch task.id) board.checkpoints
      then board
      else record board {
        checkpoints =
            board.checkpoints
            ++ checkpoint_for task (codes "-dispatch") dispatch
                (codes "approve" ∷ codes "reject" ∷ [])
              ∷ [];
        tasks =
            update_first (λ t. text_eq t.id task.id)
              (λ _. record task {
                dispatch_state = DispatchState.awaiting_approval;
                row_version = task.row_version + 1;
              })
              board.tasks;
      }

  -- The three synchronizations in the order in which every handler calls them.
  unfoldable pub sync_all : Task → Board → Board
  unfolding sync_acceptance sync_override sync_dispatch
  sync_all task board = sync_dispatch task (sync_override task (sync_acceptance task board))
