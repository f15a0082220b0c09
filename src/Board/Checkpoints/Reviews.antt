-- ===== src/Board/Checkpoints/Reviews.antt =====
-- When a task waits for its final review.
use roambench.Base.{
  ℕ, ◌+◌, ◌≡◌, refl, true, List, [], ◌∷◌, arith, if◌then◌else◌, any, count-snoc, count-none,
  count-some,
}
use roambench.Base.Text.{Text, codes, text_eq_refl}
use roambench.Board.{Task, Checkpoint, Board}
use roambench.Board.Words.{Acceptance, CheckpointStatus}
use roambench.Board.Phases.{Host}
use roambench.Board.Checkpoints.{
  final_acceptance, waits, update_first, settle, new_checkpoint, checkpoint_for, sync_acceptance,
}
use roambench.Board.Checkpoints.Pending.{waiting, IsSingle, waits-settle}

-- How many reviews a task should wait for: one while it is under review, none where it cannot be
-- accepted now, and what there was while it is merely ready.
abbrev pub reviews : Task → ℕ → ℕ
reviews task before = elim task.acceptance_status [
  | Acceptance.under_human_review ↦ 1
  | Acceptance.ready_for_acceptance ↦ before
  | Acceptance.not_ready ↦ 0
  | Acceptance.accepted ↦ 0
  | Acceptance.rejected ↦ 0
]

waiting-expire :
    (kind task_id : Text) (cs : List Checkpoint)
    → waiting kind task_id (update_first (waits kind task_id) (settle CheckpointStatus.expired) cs)
        + (if any (waits kind task_id) cs then 1 else 0)
      ≡ waiting kind task_id cs
unfolding update_first
waiting-expire kind task_id [] = refl
waiting-expire kind task_id (c ∷ cs) = ground (
  arith,
  waits-settle kind task_id CheckpointStatus.expired c refl,
  waiting-expire kind task_id cs,
)

waits-own :
    (id task_id kind : Text) (actions : List Text)
    → waits kind task_id (new_checkpoint id task_id kind actions) ≡ true
unfolding waits
waits-own id task_id kind actions = ground (arith, text_eq_refl task_id, text_eq_refl kind)

-- After the synchronization a task waits for a review exactly when its acceptance says so.
pub waiting-sync_acceptance :
    (host : Host) (task : Task) (board : Board)
    → IsSingle board.checkpoints
    → waiting final_acceptance task.id (sync_acceptance host task board).checkpoints
      ≡ reviews task (waiting final_acceptance task.id board.checkpoints)
unfolding sync_acceptance
waiting-sync_acceptance host task board v =
    let p = waits final_acceptance task.id in
    let c =
      checkpoint_for host task (codes "-final-acceptance") final_acceptance
        (codes "approve" ∷ codes "reject" ∷ codes "reroute" ∷ []) in
    ground (
      arith,
      v final_acceptance task.id,
      waiting-expire final_acceptance task.id board.checkpoints,
      count-snoc p board.checkpoints c,
      count-none p board.checkpoints,
      count-some p board.checkpoints,
      waits-own c.id task.id final_acceptance c.allowed_actions,
    )
