-- ===== src/Board/Update/Verdicts.antt =====
-- What an update may make of the verdict on a task, and of the checkpoints.
use roambench.Base.{
  ℕ, ◌+◌, ◌≡◌, sym, ap, ◌∙◌, subst, Bool, true, false, ◌&&◌, ◌||◌, not, some, inl, inr, ◌⊎◌, find,
  any, arith, if◌then◌else◌, Bool-cases,
}
use roambench.Base.Text.{Text, codes, text_eq, text_eq_iff, is_empty, trim_space}
use roambench.ControlPlane.Claims.{ClaimTable}
use roambench.Board.{
  Task, Board, TaskUpdate, granted, bind-granted, granted-injective, missing_rules,
}
use roambench.Board.Words.{
  TaskState, Acceptance, state_text, normalize_task_state, acceptance_text, normalize_acceptance,
  normalize_acceptance-acceptance_text, normal,
}
use roambench.Board.Phases.{Host, guard}
use roambench.Board.Phases.Steps.{is_nil}
use roambench.Board.Contract.{validate_contract}
use roambench.Board.Evidence.{still_missing}
use roambench.Board.Checkpoints.{update_first, sync_all, request_override}
use roambench.Board.Checkpoints.Pending.{IsSingle, sync_all-IsSingle, request_override-IsSingle}
use roambench.Board.Decide.{of_task}
use roambench.Board.Decide.Outcome.{find-update_first, any-found, found-own, any-sync_all}
use roambench.Board.Update.Rules.{validate_acceptance}
use roambench.Board.Update.{
  is_judged, is_accepted, is_reviewable, is_unready, with_contract, changes_contract,
  renew_contract, change_acceptance, change_contract, set_levels, set_pause, move_state, set_state,
  set_acceptance, ask_override, update_task,
}
use roambench.Board.Update.Inversion.{Finishes, update_task-granted}
use roambench.Board.Update.Kept.{run_action-Keeps}

acceptance_text-injective : (a b : Acceptance) → acceptance_text a ≡ acceptance_text b → a ≡ b
acceptance_text-injective a b e =
    sym (normalize_acceptance-acceptance_text a)
    ∙ ap normalize_acceptance e
    ∙ normalize_acceptance-acceptance_text b

-- A verdict is admitted only where it stands already.
validate_acceptance-judged :
    (start to : Acceptance) (state : TaskState)
    → validate_acceptance start to state ≡ granted tt
    → is_judged to ≡ true
    → to ≡ start
unfolding validate_acceptance
validate_acceptance-judged start to state e h =
    elim (Bool-cases (text_eq (acceptance_text start) (acceptance_text to))) [
      | inl same ↦ sym (
          acceptance_text-injective start to
            ((text_eq_iff (acceptance_text start) (acceptance_text to)).0 same))
      | inr differ ↦ absurd (ground arith)
    ]

judged-stays :
    (reopens : Bool) (original candidate : Acceptance) (state : TaskState)
    → (if reopens && is_unready candidate
        then granted tt
        else validate_acceptance original candidate state)
      ≡ granted tt
    → is_judged candidate ≡ true
    → candidate ≡ original
judged-stays reopens original candidate state e h =
    validate_acceptance-judged original candidate state (ground arith) h

renew_contract-SameId :
    (req : TaskUpdate) (board : Board) (task task' : Task)
    → renew_contract req board task ≡ granted task'
    → (task'.id ≡ task.id) × (task'.acceptance_status ≡ task.acceptance_status)
unfolding renew_contract
renew_contract-SameId req board task task' e =
    let (_, _, e1) = bind-granted (validate_contract board (with_contract req task)) _ task' e in
    let same = sym (granted-injective _ task' e1) in
    (ap (λ t. t.id) same, ap (λ t. t.acceptance_status) same)

-- What the steps after an action leave of the id and the verdict.
abbrev SameId : Task → Task → Type 0
SameId a b = (a.id ≡ b.id) × (a.acceptance_status ≡ b.acceptance_status)

move_state-SameId :
    (original candidate : TaskState) (task task' : Task)
    → move_state original candidate task ≡ granted task'
    → SameId task' task
unfolding move_state
move_state-SameId original candidate task task' e = ground arith

set_state-SameId :
    (original : TaskState) (value : Text) (task task' : Task)
    → set_state original value task ≡ granted task'
    → SameId task' task
unfolding set_state
set_state-SameId original value task task' e =
    let v = trim_space value in
    elim (Bool-cases (is_empty v || text_eq v (state_text task.state))) [
      | inl stays ↦
          let same : task' ≡ task = ground arith in
          (ap (λ t. t.id) same, ap (λ t. t.acceptance_status) same)
      | inr moves ↦ move_state-SameId original (normalize_task_state v) task task' (ground arith)
    ]

set_pause-SameId :
    (action : Text) (req : TaskUpdate) (task : Task)
    → SameId (set_pause action (set_levels req task)) task
unfolding set_pause set_levels
set_pause-SameId action req task = ground arith

change_acceptance-judged :
    (reopens : Bool) (original candidate : Acceptance) (board : Board) (task task' : Task)
    → change_acceptance reopens original candidate board task ≡ granted task'
    → (task'.id ≡ task.id)
      × (is_judged task'.acceptance_status ≡ true → task'.acceptance_status ≡ original)
unfolding change_acceptance
change_acceptance-judged reopens original candidate board task task' e =
    let (_, h1, e1) =
      bind-granted
        (if reopens && is_unready candidate
          then granted tt
          else validate_acceptance original candidate task.state)
        _ task' e in
    let (_, _, e2) =
      bind-granted
        (guard (not (is_reviewable candidate) || is_nil (still_missing task board.artifacts))
          missing_rules)
        _ task' e1 in
    let same = sym (granted-injective _ task' e2) in
    (
      ap (λ t. t.id) same,
      λ h.
          ap (λ t. t.acceptance_status) same
          ∙ judged-stays reopens original candidate task.state h1
              (subst (λ s. is_judged s ≡ true) (ap (λ t. t.acceptance_status) same) h),
    )

set_acceptance-judged :
    (reopens : Bool) (original : Acceptance) (value : Text) (board : Board) (task task' : Task)
    → set_acceptance reopens original value board task ≡ granted task'
    → (task'.id ≡ task.id)
      × (is_judged task'.acceptance_status ≡ true
          → (task'.acceptance_status ≡ task.acceptance_status)
            ⊎ (task'.acceptance_status ≡ original))
unfolding set_acceptance
set_acceptance-judged reopens original value board task task' e =
    let v = trim_space value in
    elim (Bool-cases (is_empty v || text_eq v (acceptance_text task.acceptance_status))) [
      | inl stays ↦
          let same : task' ≡ task = ground arith in
          (ap (λ t. t.id) same, λ h. inl (ap (λ t. t.acceptance_status) same))
      | inr moves ↦
          let made : change_acceptance reopens original (normalize_acceptance v) board task
              ≡ granted task' =
            ground arith in
          let (id, verdict) =
            change_acceptance-judged reopens original (normalize_acceptance v) board task task'
              made in
          (id, λ h. inr (verdict h))
    ]

-- A contract changes neither the id nor the verdict.
change_contract-SameId :
    (req : TaskUpdate) (board : Board) (task task' : Task)
    → change_contract req board task ≡ granted task'
    → SameId task' task
unfolding change_contract
change_contract-SameId req board task task' e = elim (Bool-cases (changes_contract req)) [
  | inr kept ↦
      let same : task' ≡ task = ground arith in
      (ap (λ t. t.id) same, ap (λ t. t.acceptance_status) same)
  | inl asked ↦ renew_contract-SameId req board task task' (ground arith)
]

ask_override-IsSingle :
    (host : Host) (action : Text) (original task : Task) (board board' : Board)
    → ask_override host action original task board ≡ granted board'
    → IsSingle board.checkpoints
    → IsSingle board'.checkpoints
unfolding ask_override
ask_override-IsSingle host action original task board board' e v =
    elim (Bool-cases (text_eq action (codes "request_archive_override"))) [
      | inr kept ↦
          let same : board' ≡ board = ground arith in
          subst (λ b. IsSingle b.checkpoints) (sym same) v
      | inl asked ↦ request_override-IsSingle host task board board' (ground arith) v
    ]

ask_override-tasks :
    (host : Host) (action : Text) (original task : Task) (board board' : Board)
    → ask_override host action original task board ≡ granted board'
    → board'.tasks ≡ board.tasks
unfolding ask_override request_override
ask_override-tasks host action original task board board' e = ground arith

-- After an action that leaves no new verdict the task keeps its id and gets none either.
Finishes-verdict :
    (host : Host) (action : Text) (req : TaskUpdate) (original acted : Task) (board board' : Board)
    (f : Finishes host action req original acted board board')
    → (f.judged.id ≡ acted.id)
      × ((is_judged acted.acceptance_status ≡ true
            → acted.acceptance_status ≡ original.acceptance_status)
          → is_judged f.judged.acceptance_status ≡ true
          → f.judged.acceptance_status ≡ original.acceptance_status)
Finishes-verdict host action req original acted board board' f =
    let (pid, pacc) = set_pause-SameId action req acted in
    let (mid, macc) =
      set_state-SameId original.state req.state (set_pause action (set_levels req acted)) f.moved
        f.moves in
    let (jid, jacc) =
      set_acceptance-judged
        (text_eq action (codes "unarchive") && is_accepted original.acceptance_status)
        original.acceptance_status req.acceptance_status board f.moved f.judged f.judges in
    (
      jid ∙ mid ∙ pid,
      λ kept h. elim (jacc h) [
        | inr same ↦ same
        | inl same ↦
            let from_action = same ∙ macc ∙ pacc in
            from_action ∙ kept (subst (λ s. is_judged s ≡ true) from_action h)
      ],
    )

module _ (host : Host) (now : ℕ) (user : Text) (claims : ClaimTable) (task_id : Text)
    (req : TaskUpdate) (board board' : Board) where
  -- An update never accepts or rejects a task: the task that it leaves is neither accepted nor rejected,
  -- or has the acceptance status that it had before.
  pub update_task-verdict :
      (stored : Task)
      → update_task host now user claims task_id req board ≡ granted board'
      → find (of_task task_id) board.tasks ≡ some stored
      → (task' : Task) × (find (of_task task_id) board'.tasks ≡ some task')
        × ((is_judged task'.acceptance_status ≡ false)
            ⊎ (task'.acceptance_status ≡ stored.acceptance_status))
  update_task-verdict stored e found =
      let (task, p, _, q) = update_task-granted host now user claims task_id req board board' e in
      let f = q.ends in
      let action = normal req.action in
      let (named, verdict) = change_contract-SameId req board p.stored task p.contract in
      let kept = run_action-Keeps host action q.asks task board (q.acted, q.between) q.runs in
      let task' = record f.judged { row_version = f.judged.row_version + 1 } in
      let same : p.stored ≡ stored = ground (arith, p.found, found) in
      let owner : task.id ≡ task_id =
        named
        ∙ (text_eq_iff p.stored.id task_id).0 (found-own task_id p.stored board.tasks p.found) in
      let (id, own) = Finishes-verdict host action q.asks task q.acted q.between board' f in
      let judged_id : task'.id ≡ task_id = id ∙ kept.id ∙ owner in
      let stays : any (of_task task_id) (sync_all host task' f.asked).tasks ≡ true =
        any-sync_all task_id task' host f.asked
        ∙ ap (any (of_task task_id))
            (ask_override-tasks host action task f.judged q.between f.asked f.asks ∙ kept.tasks)
        ∙ any-found task_id stored board.tasks found in
      let placed : board'.tasks
          ≡ update_first (of_task task_id) (λ _. task') (sync_all host task' f.asked).tasks =
        ap (λ b. b.tasks) f.result
        ∙ ap (λ z. update_first (of_task z) (λ _. task') (sync_all host task' f.asked).tasks)
            owner in
      (
        task',
        rw placed (
            find-update_first task_id task' (sync_all host task' f.asked).tasks
              ((text_eq_iff task'.id task_id).1 judged_id) stays),
        elim (Bool-cases (is_judged task'.acceptance_status)) [
          | inr undecided ↦ inl undecided
          | inl h ↦ inr (own kept.verdict h ∙ verdict ∙ ap (λ t. t.acceptance_status) same)
        ],
      )

  -- No update makes a checkpoint of a kind wait twice for a task.
  pub update_task-IsSingle :
      update_task host now user claims task_id req board ≡ granted board'
      → IsSingle board.checkpoints
      → IsSingle board'.checkpoints
  update_task-IsSingle e v =
      let (task, _, _, q) = update_task-granted host now user claims task_id req board board' e in
      let f = q.ends in
      let kept =
        run_action-Keeps host (normal req.action) q.asks task board (q.acted, q.between) q.runs in
      let between : IsSingle q.between.checkpoints = subst IsSingle (sym kept.checkpoints) v in
      let asked =
        ask_override-IsSingle host (normal req.action) task f.judged q.between f.asked f.asks
          between in
      subst (λ b. IsSingle b.checkpoints) (sym f.result)
        (sync_all-IsSingle host (record f.judged { row_version = f.judged.row_version + 1 }) f.asked
          asked)
