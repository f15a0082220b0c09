-- ===== src/Board/Decide/Verdict.antt =====
-- What an approval says of the work.
use roambench.Base.{◌≡◌, sym, ap, ◌∙◌, subst, true, false, some, find, arith, if◌then◌else◌}
use roambench.Base.Text.{Text, text_eq, text_eq_iff, contains}
use roambench.Board.{
  Task, Checkpoint, Board, Answer, granted, ◌>>◌, bind-granted, task_not_found, needs_completion,
  missing_rules, checkpoint_closed, action_refused,
}
use roambench.Board.Words.{TaskState, Acceptance}
use roambench.Board.Phases.{Host, or_refuse, guard}
use roambench.Board.Phases.Inversion.{or_refuse-granted, guard-granted}
use roambench.Board.Phases.Steps.{is_nil}
use roambench.Board.Phases.Readiness.{Ready, is_nil-eq}
use roambench.Board.Evidence.{still_missing}
use roambench.Board.Evidence.Complete.{missing-Proven}
use roambench.Board.Runbook.{runbook_for}
use roambench.Board.Checkpoints.{is_pending, final_acceptance, archive_override}
use roambench.Board.Decide.{
  Verb, verb_text, read_verb, is_final, is_override, is_complete, of_task, validate_approval,
  judged, new_decision, settle_task, with_decision, may_decide, decide,
}
use roambench.Board.Decide.Inversion.{Decides, decide-granted, settle_task-granted}
use roambench.Board.Decide.Outcome.{SameVerdict, Settles-found}

is_complete-eq : (s : TaskState) → is_complete s ≡ true → s ≡ TaskState.execution_complete
is_complete-eq s h = ground arith

-- What the validation of an approval has found.
validate_approval-Ready :
    (c : Checkpoint) (board : Board) (task t : Task)
    → find (of_task c.task_id) board.tasks ≡ some task
    → validate_approval c board ≡ granted t
    → (task.state ≡ TaskState.execution_complete) × Ready (task, board)
unfolding validate_approval
validate_approval-Ready c board task t ht e =
    let (t0, h1, e1) =
      bind-granted (or_refuse (find (of_task c.task_id) board.tasks) task_not_found) _ t e in
    let same : t0 ≡ task = ground (arith, or_refuse-granted _ _ t0 h1, ht) in
    let (u2, h2, e2) = bind-granted (guard (is_complete t0.state) needs_completion) _ t e1 in
    let (u3, h3, _) =
      bind-granted (guard (is_nil (still_missing t0 board.artifacts)) missing_rules) _ t e2 in
    let found : (t0.state ≡ TaskState.execution_complete) × Ready (t0, board) = (
      is_complete-eq t0.state (guard-granted _ _ u2 h2),
      missing-Proven t0.id board.artifacts (runbook_for t0) (is_nil-eq _ (guard-granted _ _ u3 h3)),
    ) in
    subst (λ z. (z.state ≡ TaskState.execution_complete) × Ready (z, board)) same found

may_decide-validated :
    (c : Checkpoint) (board : Board)
    → may_decide Verb.approve c board ≡ granted tt
    → is_final c ≡ true
    → (t : Task) × (validate_approval c board ≡ granted t)
unfolding may_decide
may_decide-validated c board e f =
    let (_, _, e1) = bind-granted (guard (is_pending c.status) checkpoint_closed) _ tt e in
    let (_, _, e2) =
      bind-granted (guard (contains c.allowed_actions (verb_text Verb.approve)) action_refused) _ tt
        e1 in
    let e3 : (validate_approval c board >> granted tt) ≡ granted tt =
      ap (λ b. if b then validate_approval c board >> granted tt else granted tt) (sym f) ∙ e2 in
    let (t, h, _) = bind-granted (validate_approval c board) _ tt e3 in (t, h)

pub final-override : (c : Checkpoint) → is_final c ≡ true → is_override c ≡ false
unfolding text_eq
final-override c h =
    ap (λ k. text_eq k archive_override) ((text_eq_iff c.kind final_acceptance).0 h)

-- The task of the checkpoint is found as the decision judges it.
abbrev pub Judged : Host → Board → Task → Verb → Checkpoint → Type 0
Judged host board' task verb c =
    (task' : Task) × (find (of_task c.task_id) board'.tasks ≡ some task')
    × SameVerdict task' (judged verb c (new_decision host verb c).id task)

module _ (host : Host) (fingerprint : Board → Task → Answer Text) where
  Decides-Judged :
      (id action : Text) (board board' : Board) (task : Task)
      (d : Decides host fingerprint id action board board')
      → find (of_task d.checkpoint.task_id) board.tasks ≡ some task
      → Judged host board' task d.verb d.checkpoint
  Decides-Judged id action board board' task d ht =
      let settles : settle_task host fingerprint d.verb d.checkpoint task
            (with_decision host d.verb d.checkpoint board)
          ≡ granted board' =
        ground (arith, d.result, ht) in
      Settles-found host fingerprint d.verb d.checkpoint task
        (with_decision host d.verb d.checkpoint board) board' ht
        (settle_task-granted host fingerprint d.verb d.checkpoint task _ board' settles)

  -- A decision that is granted was open to be made, and leaves the task of its checkpoint as it judges it.
  decide-Judged :
      (id action : Text) (board board' : Board) (verb : Verb) (c : Checkpoint) (task : Task)
      → decide host fingerprint id action board ≡ granted board'
      → read_verb action ≡ some verb
      → find (λ d. text_eq d.id id) board.checkpoints ≡ some c
      → find (of_task c.task_id) board.tasks ≡ some task
      → (may_decide verb c board ≡ granted tt) × Judged host board' task verb c
  decide-Judged id action board board' verb c task e hv hc ht =
      let d = decide-granted host fingerprint id action board board' e in
      let v : d.verb ≡ verb = ground (arith, d.read, hv) in
      let k : d.checkpoint ≡ c = ground (arith, d.found, hc) in
      let there : find (of_task d.checkpoint.task_id) board.tasks ≡ some task = rw k ht in
      let made = Decides-Judged id action board board' task d there in
      (
        subst (λ w. may_decide w c board ≡ granted tt) v
            (subst (λ z. may_decide d.verb z board ≡ granted tt) k d.may),
        subst (λ w. Judged host board' task w c) v
            (subst (λ z. Judged host board' task d.verb z) k made),
      )

  judged-approve :
      (c : Checkpoint) (d : Text) (task : Task)
      → is_override c ≡ false
      → ((judged Verb.approve c d task).acceptance_status ≡ Acceptance.accepted)
        × ((judged Verb.approve c d task).state ≡ task.state)
  unfolding judged
  judged-approve c d task h = ground arith

  pub decide-approve :
      (id action : Text) (board board' : Board) (c : Checkpoint) (task : Task)
      → decide host fingerprint id action board ≡ granted board'
      → read_verb action ≡ some Verb.approve
      → find (λ d. text_eq d.id id) board.checkpoints ≡ some c
      → find (of_task c.task_id) board.tasks ≡ some task
      → is_override c ≡ false
      → (task' : Task) × (find (of_task c.task_id) board'.tasks ≡ some task')
        × (task'.acceptance_status ≡ Acceptance.accepted)
        × (task'.state ≡ task.state)
  decide-approve id action board board' c task e hv hc ht ho =
      let (_, made) = decide-Judged id action board board' Verb.approve c task e hv hc ht in
      let (task', found, same) = made in
      let (accepted, kept) = judged-approve c (new_decision host Verb.approve c).id task ho in
      (task', found, same.2 ∙ accepted, same.1 ∙ kept)

  -- A decision on the board, which is how a checkpoint is decided that the control plane does not know,
  -- grants the final acceptance of a task only while the task is execution_complete and each
  -- completion rule of its runbook is proven by an artifact; the task is accepted then.
  pub decide-final_acceptance :
      (id action : Text) (board board' : Board) (c : Checkpoint) (task : Task)
      → decide host fingerprint id action board ≡ granted board'
      → read_verb action ≡ some Verb.approve
      → find (λ d. text_eq d.id id) board.checkpoints ≡ some c
      → find (of_task c.task_id) board.tasks ≡ some task
      → is_final c ≡ true
      → (task.state ≡ TaskState.execution_complete)
        × Ready (task, board)
        × ((task' : Task) × (find (of_task c.task_id) board'.tasks ≡ some task')
            × (task'.acceptance_status ≡ Acceptance.accepted)
            × (task'.state ≡ TaskState.execution_complete))
  decide-final_acceptance id action board board' c task e hv hc ht hf =
      let (may, _) = decide-Judged id action board board' Verb.approve c task e hv hc ht in
      let (t, valid) = may_decide-validated c board may hf in
      let (state, ready) = validate_approval-Ready c board task t ht valid in
      let (task', found, accepted, kept) =
        decide-approve id action board board' c task e hv hc ht (final-override c hf) in
      (state, ready, (task', found, accepted, kept ∙ state))
