-- ===== src/Board/Checkpoints/Pending.antt =====
-- At most one checkpoint of a kind waits for a task.
use roambench.Base.{
  ℕ, ◌≤◌, ◌≡◌, refl, sym, ap, ◌∙◌, Bool, true, false, inl, inr, List, [], ◌∷◌, ◌++◌, map, arith,
  if◌then◌else◌, any, count, count-snoc, count-none, Bool-cases,
}
use roambench.Base.Text.{Text, codes, text_eq_iff}
use roambench.Board.{Task, Checkpoint, Board, granted}
use roambench.Board.Words.{CheckpointStatus}
use roambench.Board.Phases.{Host}
use roambench.Board.Checkpoints.{
  is_pending, final_acceptance, archive_override, dispatch, waits, update_first, settle,
  new_checkpoint, checkpoint_for, sync_acceptance, sync_override, sync_dispatch, sync_all,
  auto_approve, request_override,
}

-- How many checkpoints of a kind wait for a task.
abbrev pub waiting : Text → Text → List Checkpoint → ℕ
waiting kind task_id cs = count (waits kind task_id) cs

-- No kind of checkpoint waits twice for a task.
abbrev pub IsSingle : List Checkpoint → Type 0
IsSingle cs = (kind task_id : Text) → waiting kind task_id cs ≤ 1

module _ (kind task_id : Text) where
  -- What is settled does not wait.
  pub waits-settle :
      (s : CheckpointStatus) (c : Checkpoint)
      → is_pending s ≡ false
      → waits kind task_id (settle s c) ≡ false
  unfolding waits
  waits-settle s c h = ground arith

  waiting-update_first :
      (p : Checkpoint → Bool) (s : CheckpointStatus) (cs : List Checkpoint)
      → is_pending s ≡ false
      → waiting kind task_id (update_first p (settle s) cs) ≤ waiting kind task_id cs
  unfolding update_first
  waiting-update_first p s [] h = ground arith
  waiting-update_first p s (c ∷ cs) h =
      ground (arith, waits-settle s c h, waiting-update_first p s cs h)

  waiting-map :
      (p : Checkpoint → Bool) (s : CheckpointStatus) (cs : List Checkpoint)
      → is_pending s ≡ false
      → waiting kind task_id (map (λ c. if p c then settle s c else c) cs) ≤ waiting kind task_id cs
  waiting-map p s [] h = ground arith
  waiting-map p s (c ∷ cs) h = ground (arith, waits-settle s c h, waiting-map p s cs h)

  waits-new :
      (id owner k : Text) (actions : List Text)
      → waits kind task_id (new_checkpoint id owner k actions) ≡ true
      → (k ≡ kind) × (owner ≡ task_id)
  unfolding waits
  waits-new id owner k actions h = ground (arith, h, text_eq_iff owner task_id, text_eq_iff k kind)

  -- A checkpoint that is raised where none of its kind waits for its task.
  waiting-raise :
      (id owner k : Text) (actions : List Text) (cs : List Checkpoint)
      → any (waits k owner) cs ≡ false
      → waiting kind task_id cs ≤ 1
      → waiting kind task_id (cs ++ new_checkpoint id owner k actions ∷ []) ≤ 1
  waiting-raise id owner k actions cs none_waits h =
      let c = new_checkpoint id owner k actions in
      elim (Bool-cases (waits kind task_id c)) [
        | inr other ↦ rw (count-snoc (waits kind task_id) cs c, other) (omega (arith, h))
        | inl same ↦
            let (ke, te) = waits-new id owner k actions same in
            let before = count-none (waits kind task_id) cs (
              ap (λ z. any (waits z task_id) cs) (sym ke)
              ∙ ap (λ z. any (waits k z) cs) (sym te)
              ∙ none_waits) in
            rw (count-snoc (waits kind task_id) cs c, same) (omega (arith, before))
      ]

module _ (host : Host) (task : Task) (board : Board) where
  sync_acceptance-IsSingle :
      IsSingle board.checkpoints → IsSingle (sync_acceptance host task board).checkpoints
  unfolding sync_acceptance
  sync_acceptance-IsSingle v kind task_id = ground (
    arith,
    v kind task_id,
    waiting-update_first kind task_id (waits final_acceptance task.id) CheckpointStatus.expired
        board.checkpoints refl,
    λ (h : any (waits final_acceptance task.id) board.checkpoints ≡ false).
        waiting-raise kind task_id
          (host.new_id (codes "checkpoint") (task.id ++ codes "-final-acceptance")) task.id
          final_acceptance (codes "approve" ∷ codes "reject" ∷ codes "reroute" ∷ [])
          board.checkpoints h (v kind task_id),
  )

  sync_override-IsSingle :
      IsSingle board.checkpoints → IsSingle (sync_override task board).checkpoints
  unfolding sync_override
  sync_override-IsSingle v kind task_id = ground (
    arith,
    v kind task_id,
    waiting-update_first kind task_id (waits archive_override task.id) CheckpointStatus.expired
        board.checkpoints refl,
  )

  sync_dispatch-IsSingle :
      IsSingle board.checkpoints → IsSingle (sync_dispatch host task board).checkpoints
  unfolding sync_dispatch auto_approve
  sync_dispatch-IsSingle v kind task_id = ground (
    arith,
    v kind task_id,
    waiting-map kind task_id (waits dispatch task.id) CheckpointStatus.approved board.checkpoints
        refl,
    λ (h : any (waits dispatch task.id) board.checkpoints ≡ false).
        waiting-raise kind task_id (host.new_id (codes "checkpoint") (task.id ++ codes "-dispatch"))
          task.id dispatch (codes "approve" ∷ codes "reject" ∷ []) board.checkpoints h
          (v kind task_id),
  )

  request_override-granted :
      (board' : Board)
      → request_override host task board ≡ granted board'
      → (any (waits archive_override task.id) board.checkpoints ≡ false)
        × (board'.checkpoints
            ≡ board.checkpoints
              ++ checkpoint_for host task
                  (codes "-archive-override")
                  archive_override
                  (codes "approve" ∷ codes "reject" ∷ [])
                ∷ [])
  unfolding request_override
  request_override-granted board' e = ground arith

  -- A request for an override raises its checkpoint only where none waits.
  pub request_override-IsSingle :
      (board' : Board)
      → request_override host task board ≡ granted board'
      → IsSingle board.checkpoints
      → IsSingle board'.checkpoints
  request_override-IsSingle board' e v kind task_id =
      let (none_waits, same) = request_override-granted board' e in
      rw same (
        waiting-raise kind task_id
          (host.new_id (codes "checkpoint") (task.id ++ codes "-archive-override")) task.id
          archive_override (codes "approve" ∷ codes "reject" ∷ []) board.checkpoints none_waits
          (v kind task_id))

-- The synchronizations that follow a change of any task keep it.
pub sync_all-IsSingle :
    (host : Host) (task : Task) (board : Board)
    → IsSingle board.checkpoints
    → IsSingle (sync_all host task board).checkpoints
unfolding sync_all
sync_all-IsSingle host task board v =
    let first = sync_acceptance host task board in
    sync_dispatch-IsSingle host task (sync_override task first)
      (sync_override-IsSingle host task first (sync_acceptance-IsSingle host task board v))
