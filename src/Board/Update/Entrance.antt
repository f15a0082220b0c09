-- ===== src/Board/Update/Entrance.antt =====
-- What the entrance of an update asks for.
use roambench.Base.{
  ℕ, ◌<◌, ◌≡◌, refl, sym, ap, subst, Bool, true, false, ◌&&◌, ◌∙◌, ◌⊎◌, inl, inr, some, find, arith,
  if◌then◌else◌, Bool-cases, Option-cases, ltb→lt,
}
use roambench.Base.Text.{Text, codes, text_eq, contains}
use roambench.ControlPlane.Errors.{ok}
use roambench.ControlPlane.Claims.{ClaimTable, TaskClaim, is_active, active_claim_for_task}
use roambench.Board.{Task, Board, TaskUpdate, granted, bind-granted}
use roambench.Board.Phases.{Host, is_managed, is_claimed}
use roambench.Board.Decide.{of_task}
use roambench.Board.Contract.{find_project}
use roambench.Board.Gate.{claim_allowed, by_hand, execution_gate, require_lease}
use roambench.Board.Update.Actions.{gated_actions}
use roambench.Board.Update.{changes_contract, renew_contract, change_contract, admits, update_task}
use roambench.Board.Update.Inversion.{update_task-granted}

-- The actions that set agents to work on a task, as the code spells them.
abbrev pub IsExecution : Text → Type 0
IsExecution action =
    (action ≡ codes "start_execution")
    ⊎ (action ≡ codes "start_phase")
    ⊎ (action ≡ codes "run_tool")
    ⊎ (action ≡ codes "complete_phase")

IsExecution-gated : (action : Text) → IsExecution action → contains gated_actions action ≡ true
unfolding contains text_eq
IsExecution-gated action (inl e) = rw e refl
IsExecution-gated action (inr (inl e)) = rw e refl
IsExecution-gated action (inr (inr (inl e))) = rw e refl
IsExecution-gated action (inr (inr (inr e))) = rw e refl

-- A contract that was changed leaves the task unclaimed, in its project.
change_contract-cases :
    (req : TaskUpdate) (board : Board) (stored task : Task)
    → change_contract req board stored ≡ granted task
    → ((stored ≡ task) × (changes_contract req ≡ false))
      ⊎ ((task.project_id ≡ stored.project_id)
          × (task.pause_reason ≡ stored.pause_reason)
          × (is_claimed task.dispatch_state ≡ false))
unfolding change_contract renew_contract
change_contract-cases req board stored task e = elim (Bool-cases (changes_contract req)) [
  | inr same ↦ inl (ground arith, same)
  | inl other ↦ inr (ground arith, ground arith, ground arith)
]

-- Whether agents execute a task hangs on its project and its pause.
agents_execute :
    (board : Board) (t task : Task)
    → t.project_id ≡ task.project_id
    → t.pause_reason ≡ task.pause_reason
    → is_managed board task ≡ true
    → by_hand board task ≡ false
    → (is_managed board t ≡ true) × (by_hand board t ≡ false)
unfolding is_managed find_project
agents_execute board t task p q m h = (rw p m, rw (p, q) h)

module _ (host : Host) (now : ℕ) (user : Text) (claims : ClaimTable) where
  -- The gate of a managed project opens to a lease that runs.
  execution_gate-granted :
      (board : Board) (task : Task)
      → is_managed board task ≡ true
      → by_hand board task ≡ false
      → execution_gate now user claims board task ≡ granted tt
      → (c : TaskClaim) × (active_claim_for_task user task.id claims ≡ ok c)
        × (now < c.lease_expires_at)
        × (claim_allowed board task ≡ true)
        × (is_claimed task.dispatch_state ≡ true)
  unfolding execution_gate active_claim_for_task
  execution_gate-granted board task m h e =
      elim (Option-cases (
        find
          (λ (c : TaskClaim).
            text_eq c.username user && text_eq c.task_id task.id && is_active c.status)
          claims)) [
            | inl missing ↦ absurd (ground arith)
            | inr (c, found) ↦ (
              c,
              ground arith,
              ltb→lt now c.lease_expires_at (ground arith),
              ground arith,
              ground arith,
            )
          ]

  admits-gate :
      (req : TaskUpdate) (board : Board) (task : Task)
      → contains gated_actions req.action ≡ true
      → admits now user claims req board task ≡ granted tt
      → execution_gate now user claims board task ≡ granted tt
  unfolding admits
  admits-gate req board task g e =
      let (_, _, e1) =
        bind-granted
          (if req.agent_bypass
            then require_lease now user claims req.lease_id board task
            else granted tt)
          _ tt e in
      let (_, h, _) =
        bind-granted
          (if contains gated_actions req.action
            then execution_gate now user claims board task
            else granted tt)
          _ tt e1 in
      let gate =
        λ (b : Bool). if b then execution_gate now user claims board task else granted tt in
      ap gate (sym g) ∙ h

  -- An update whose action is start_execution, start_phase, run_tool or complete_phase, spelled like
  -- that, is granted on a task of a managed project that is not executed by hand only while the
  -- user has an active lease on the task that has not run out; the task is then claimed and may be,
  -- and the update does not change its contract.
  pub update_task-leased :
      (task_id : Text) (req : TaskUpdate) (board board' : Board) (task : Task)
      → update_task host now user claims task_id req board ≡ granted board'
      → find (of_task task_id) board.tasks ≡ some task
      → IsExecution req.action
      → is_managed board task ≡ true
      → by_hand board task ≡ false
      → (c : TaskClaim) × (active_claim_for_task user task.id claims ≡ ok c)
        × (now < c.lease_expires_at)
        × (claim_allowed board task ≡ true)
        × (is_claimed task.dispatch_state ≡ true)
        × (changes_contract req ≡ false)
  update_task-leased task_id req board board' task e found x m h =
      let (t, prepared, admitted, _) =
        update_task-granted host now user claims task_id req board board' e in
      let gate = admits-gate req board t (IsExecution-gated req.action x) admitted in
      let same : prepared.stored ≡ task = ground (arith, prepared.found, found) in
      elim (change_contract-cases req board prepared.stored t prepared.contract) [
        | inl (kept, unchanged) ↦
            let row : task ≡ t = sym same ∙ kept in
            let (c, own, live, may, claimed) =
              execution_gate-granted board task m h
                (subst (λ z. execution_gate now user claims board z ≡ granted tt) (sym row) gate) in
            (c, own, live, may, claimed, unchanged)
        | inr (p, q, free) ↦
            let (m', h') =
              agents_execute board t task (p ∙ ap (λ z. z.project_id) same)
                (q ∙ ap (λ z. z.pause_reason) same) m h in
            let (_, _, _, _, claimed) = execution_gate-granted board t m' h' gate in
            absurd (ground arith)
      ]
