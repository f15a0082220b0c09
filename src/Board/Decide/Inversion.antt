-- ===== src/Board/Decide/Inversion.antt =====
-- What a decision that was granted has passed, and what it has done.
use roambench.Base.{◌+◌, ◌≡◌, none, some, find, arith}
use roambench.Base.Text.{Text, text_eq}
use roambench.Board.{
  Task, Checkpoint, Board, Answer, granted, invalid_action, checkpoint_not_found, bind-granted,
}
use roambench.Board.Phases.{Host, or_refuse}
use roambench.Board.Phases.Inversion.{or_refuse-granted}
use roambench.Board.Checkpoints.{update_first, sync_all}
use roambench.Board.Decide.{
  Verb, read_verb, of_task, judged, dispatch_decided, new_decision, with_decision, settle_task,
  may_decide, decide,
}

module _ (host : Host) (fingerprint : Board → Task → Answer Text) where
  pub record Decides (id action : Text) (board board' : Board) : Type 0 where
    pub verb : Verb
    pub checkpoint : Checkpoint
    pub read : read_verb action ≡ some verb
    pub found : find (λ c. text_eq c.id id) board.checkpoints ≡ some checkpoint
    pub may : may_decide verb checkpoint board ≡ granted tt
    pub result :
        elim (find (of_task checkpoint.task_id) board.tasks) [
          | none ↦ granted (with_decision host verb checkpoint board)
          | some task ↦
              settle_task host fingerprint verb checkpoint task
                (with_decision host verb checkpoint board)
        ]
        ≡ granted board'

  pub decide-granted :
      (id action : Text) (board board' : Board)
      → decide host fingerprint id action board ≡ granted board'
      → Decides id action board board'
  unfolding decide
  decide-granted id action board board' e =
      let (verb, h1, e1) = bind-granted (or_refuse (read_verb action) invalid_action) _ board' e in
      let (c, h2, e2) =
        bind-granted
          (or_refuse (find (λ c. text_eq c.id id) board.checkpoints) checkpoint_not_found) _ board'
          e1 in
      let (_, h3, e3) = bind-granted (may_decide verb c board) _ board' e2 in
      record {
        verb = verb;
        checkpoint = c;
        read = or_refuse-granted _ _ verb h1;
        found = or_refuse-granted _ _ c h2;
        may = h3;
        result = e3;
      }

  -- The task and the board that the synchronizations leave.
  pub record Settles (verb : Verb) (c : Checkpoint) (task : Task) (board board' : Board)
      : Type 0 where
    pub decided : Task
    pub decides :
        dispatch_decided fingerprint verb c board (judged verb c (new_decision host verb c).id task)
        ≡ granted decided
    pub result :
        board'
        ≡ record (sync_all host (record decided { row_version = decided.row_version + 1 }) board) {
          tasks =
              update_first
                (of_task c.task_id)
                (λ _. record decided { row_version = decided.row_version + 1 })
                (sync_all host
                  (record decided { row_version = decided.row_version + 1 })
                  board).tasks;
        }

  pub settle_task-granted :
      (verb : Verb) (c : Checkpoint) (task : Task) (board board' : Board)
      → settle_task host fingerprint verb c task board ≡ granted board'
      → Settles verb c task board board'
  unfolding settle_task
  settle_task-granted verb c task board board' e =
      let (decided, h, e1) =
        bind-granted
          (dispatch_decided fingerprint verb c board
            (judged verb c (new_decision host verb c).id task))
          _ board' e in
      record { decided = decided; decides = h; result = ground arith }
