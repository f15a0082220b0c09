-- ===== src/Board/Decide/Outcome.antt =====
-- What a decision makes of the task of its checkpoint.
use roambench.Base.{
  ◌+◌, ◌≡◌, refl, ap, ◌∙◌, subst, true, some, inl, inr, List, [], ◌∷◌, map, find, any, arith,
  if◌then◌else◌, Bool-cases,
}
use roambench.Base.Text.{Text, text_eq, text_eq_iff}
use roambench.Board.{Task, Checkpoint, Board, Answer, granted}
use roambench.Board.Words.{DispatchState}
use roambench.Board.Phases.{Host}
use roambench.Board.Checkpoints.{
  update_first, dispatched, auto_approve, sync_acceptance, sync_override, sync_dispatch, sync_all,
}
use roambench.Board.Decide.{Verb, of_task, judged, dispatch_decided, new_decision}
use roambench.Board.Decide.Inversion.{Settles}

pub find-update_first :
    (id : Text) (t : Task) (ts : List Task)
    → of_task id t ≡ true
    → any (of_task id) ts ≡ true
    → find (of_task id) (update_first (of_task id) (λ _. t) ts) ≡ some t
unfolding update_first
find-update_first id t [] own h = absurd (ground arith)
find-update_first id t (x ∷ ts) own h = ground (arith, find-update_first id t ts own)

pub any-found :
    (id : Text) (t : Task) (ts : List Task)
    → find (of_task id) ts ≡ some t
    → any (of_task id) ts ≡ true
any-found id t [] h = absurd (ground arith)
any-found id t (x ∷ ts) h = ground (arith, any-found id t ts)

pub found-own :
    (id : Text) (t : Task) (ts : List Task) → find (of_task id) ts ≡ some t → of_task id t ≡ true
found-own id t [] h = absurd (ground arith)
found-own id t (x ∷ ts) h = elim (Bool-cases (of_task id x)) [
  | inl hit ↦ let same : x ≡ t = ground arith in subst (λ z. of_task id z ≡ true) same hit
  | inr miss ↦ found-own id t ts (ground arith)
]

-- The synchronizations keep the ids of the tasks.
module _ (id : Text) (task : Task) where
  any-replaced :
      (x : Task) (ts : List Task)
      → x.id ≡ task.id
      → any (of_task id) (update_first (λ t. text_eq t.id task.id) (λ _. x) ts)
        ≡ any (of_task id) ts
  unfolding update_first
  any-replaced x [] e = refl
  any-replaced x (t ∷ ts) e = ground (arith, any-replaced x ts e, text_eq_iff t.id task.id)

  any-dispatched :
      (ts : List Task)
      → any (of_task id) (map (λ t. if text_eq t.id task.id then dispatched t else t) ts)
        ≡ any (of_task id) ts
  any-dispatched [] = refl
  any-dispatched (t ∷ ts) = ground (arith, any-dispatched ts)

  any-sync_dispatch :
      (host : Host) (board : Board)
      → any (of_task id) (sync_dispatch host task board).tasks ≡ any (of_task id) board.tasks
  unfolding sync_dispatch auto_approve
  any-sync_dispatch host board = ground (
    arith,
    any-dispatched board.tasks,
    any-replaced
        (record task {
          dispatch_state = DispatchState.awaiting_approval;
          row_version = task.row_version + 1;
        })
        board.tasks refl,
  )

  sync_acceptance-tasks :
      (host : Host) (board : Board) → (sync_acceptance host task board).tasks ≡ board.tasks
  unfolding sync_acceptance
  sync_acceptance-tasks host board = ground arith

  sync_override-tasks : (board : Board) → (sync_override task board).tasks ≡ board.tasks
  unfolding sync_override
  sync_override-tasks board = ground arith

  pub any-sync_all :
      (host : Host) (board : Board)
      → any (of_task id) (sync_all host task board).tasks ≡ any (of_task id) board.tasks
  unfolding sync_all
  any-sync_all host board =
      let first = sync_acceptance host task board in
      any-sync_dispatch host (sync_override task first)
      ∙ ap (any (of_task id)) (sync_override-tasks first ∙ sync_acceptance-tasks host board)

-- A dispatch that is decided changes neither the id nor the verdict of a task.
abbrev pub SameVerdict : Task → Task → Type 0
SameVerdict a b = (a.id ≡ b.id) × (a.state ≡ b.state) × (a.acceptance_status ≡ b.acceptance_status)

module _ (host : Host) (fingerprint : Board → Task → Answer Text) where
  dispatch_decided-SameVerdict :
      (verb : Verb) (c : Checkpoint) (board : Board) (task task' : Task)
      → dispatch_decided fingerprint verb c board task ≡ granted task'
      → SameVerdict task' task
  unfolding dispatch_decided
  dispatch_decided-SameVerdict Verb.approve c board task task' e = ground arith
  dispatch_decided-SameVerdict Verb.reject c board task task' e = ground arith
  dispatch_decided-SameVerdict Verb.reroute c board task task' e = ground arith

  judged-id :
      (verb : Verb) (c : Checkpoint) (d : Text) (task : Task) → (judged verb c d task).id ≡ task.id
  unfolding judged
  judged-id Verb.approve c d task = ground arith
  judged-id Verb.reject c d task = ground arith
  judged-id Verb.reroute c d task = refl

  -- After the decision the task of the checkpoint is found as it was judged.
  pub Settles-found :
      (verb : Verb) (c : Checkpoint) (task : Task) (board board' : Board)
      → find (of_task c.task_id) board.tasks ≡ some task
      → Settles host fingerprint verb c task board board'
      → (task' : Task) × (find (of_task c.task_id) board'.tasks ≡ some task')
        × SameVerdict task' (judged verb c (new_decision host verb c).id task)
  Settles-found verb c task board board' found s =
      let task' = record s.decided { row_version = s.decided.row_version + 1 } in
      let same =
        dispatch_decided-SameVerdict verb c board (judged verb c (new_decision host verb c).id task)
          s.decided s.decides in
      let named : s.decided.id ≡ task.id =
        same.0 ∙ judged-id verb c (new_decision host verb c).id task in
      let own : of_task c.task_id task' ≡ true =
        rw named (found-own c.task_id task board.tasks found) in
      let stays : any (of_task c.task_id) (sync_all host task' board).tasks ≡ true =
        any-sync_all c.task_id task' host board ∙ any-found c.task_id task board.tasks found in
      (
        task',
        rw s.result (find-update_first c.task_id task' (sync_all host task' board).tasks own stays),
        same,
      )
