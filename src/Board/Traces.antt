-- ===== src/Board/Traces.antt =====
-- Sequences of requests to the board: updates of tasks and decisions on checkpoints.
use roambench.Base.{
  ℕ, ◌+◌, ◌≤◌, ◌≡◌, refl, sym, subst, Bool, false, inl, inr, List, [], ◌∷◌, find, arith,
  Option-cases,
}
use roambench.Base.Text.{Text, text_eq}
use roambench.ControlPlane.Claims.{ClaimTable}
use roambench.Board.{Task, Checkpoint, Board, TaskUpdate, Answer, granted, granted-injective}
use roambench.Board.Phases.{Host}
use roambench.Board.Checkpoints.{is_pending, waits, update_first}
use roambench.Board.Checkpoints.Pending.{waiting, IsSingle, sync_all-IsSingle}
use roambench.Board.Decide.{
  Verb, verb_status, of_task, resolve, new_decision, with_decision, settle_task, decide,
}
use roambench.Board.Decide.Inversion.{decide-granted, settle_task-granted}
use roambench.Board.Update.{update_task}
use roambench.Board.Update.Verdicts.{update_task-IsSingle}

-- One request that is granted.
pub data Step (board board' : Board) : Type 0 where
  updated :
      (host : Host) (now : ℕ) (user : Text) (claims : ClaimTable) (task_id : Text)
      (req : TaskUpdate)
      → update_task host now user claims task_id req board ≡ granted board'
      → Step board board'
  decided :
      (host : Host) (fingerprint : Board → Task → Answer Text) (id action : Text)
      → decide host fingerprint id action board ≡ granted board'
      → Step board board'

pub data Reach (start : Board) : Board → Type 0 where
  here : Reach start start
  next : {board board' : Board} → Reach start board → Step board board' → Reach start board'

verb_status-closed : (verb : Verb) → is_pending (verb_status verb) ≡ false
verb_status-closed Verb.approve = refl
verb_status-closed Verb.reject = refl
verb_status-closed Verb.reroute = refl

-- A checkpoint that does not wait takes the place of another.
waiting-replace :
    (kind task_id : Text) (p : Checkpoint → Bool) (d : Checkpoint) (cs : List Checkpoint)
    → is_pending d.status ≡ false
    → waiting kind task_id (update_first p (λ _. d) cs) ≤ waiting kind task_id cs
unfolding update_first waits
waiting-replace kind task_id p d [] h = ground arith
waiting-replace kind task_id p d (c ∷ cs) h = ground (arith, waiting-replace kind task_id p d cs h)

with_decision-IsSingle :
    (host : Host) (verb : Verb) (c : Checkpoint) (board : Board)
    → IsSingle board.checkpoints
    → IsSingle (with_decision host verb c board).checkpoints
with_decision-IsSingle host verb c board v kind task_id = omega (
  arith,
  v kind task_id,
  waiting-replace kind task_id (λ d. text_eq d.id c.id)
      (resolve verb (new_decision host verb c).id c) board.checkpoints (verb_status-closed verb),
)

decide-IsSingle :
    (host : Host) (fingerprint : Board → Task → Answer Text) (id action : Text)
    (board board' : Board)
    → decide host fingerprint id action board ≡ granted board'
    → IsSingle board.checkpoints
    → IsSingle board'.checkpoints
decide-IsSingle host fingerprint id action board board' e v =
    let d = decide-granted host fingerprint id action board board' e in
    let c = d.checkpoint in
    let made = with_decision-IsSingle host d.verb c board v in
    elim (Option-cases (find (of_task c.task_id) board.tasks)) [
      | inl gone ↦
          let left : granted (with_decision host d.verb c board) ≡ granted board' =
            ground (arith, d.result, gone) in
          subst (λ b. IsSingle b.checkpoints) (granted-injective _ board' left) made
      | inr (task, found) ↦
          let settles : settle_task host fingerprint d.verb c task
                (with_decision host d.verb c board)
              ≡ granted board' =
            ground (arith, d.result, found) in
          let s = settle_task-granted host fingerprint d.verb c task _ board' settles in
          subst (λ b. IsSingle b.checkpoints) (sym s.result)
            (sync_all-IsSingle host (record s.decided { row_version = s.decided.row_version + 1 })
              (with_decision host d.verb c board) made)
    ]

Step-IsSingle : {b b' : Board} → Step b b' → IsSingle b.checkpoints → IsSingle b'.checkpoints
Step-IsSingle {b} {b'} (Step.updated host now user claims id req e) v =
    update_task-IsSingle host now user claims id req b b' e v
Step-IsSingle {b} {b'} (Step.decided host fingerprint id action e) v =
    decide-IsSingle host fingerprint id action b b' e v

-- However updates and decisions follow each other, no kind of checkpoint waits twice for a task, if none
-- did at the start.
pub Reach-IsSingle :
    {b b' : Board} (r : Reach b b') → IsSingle b.checkpoints → IsSingle b'.checkpoints
Reach-IsSingle Reach.here v = v
Reach-IsSingle (Reach.next r s) v = Step-IsSingle s (Reach-IsSingle r v)
