-- ===== src/ControlPlane/Projections.antt =====
-- The marks on task projections: internal/controlplane/projection.go, on the table task_projections. The
-- listing of the open ones, which only reads, is left out.
pub mod Once
mod Tests
use roambench.Base.{
  ℕ, suc, ◌+◌, Bool, true, false, ◌&&◌, not, Option, none, some, List, [], map, count, ⊤, ◌==◌,
  if◌then◌else◌,
}
use roambench.Base.Text.{Text, codes, text_eq, trim_space}
use roambench.ControlPlane.Errors.{Result, ok, err, conflict}
use roambench.ControlPlane.Db.{ProjectionState, Projection}

-- `state IN ('pending','failed')`.
abbrev pub is_open : ProjectionState → Bool
is_open ProjectionState.pending = true
is_open ProjectionState.applied = false
is_open ProjectionState.failed = true

abbrev pub at_decision : Text → Text → Projection → Bool
at_decision user decision p = text_eq p.username user && text_eq p.decision_id decision

abbrev pub is_markable : Text → Text → Projection → Bool
is_markable user decision p = at_decision user decision p && is_open p.state

-- The SET of the two updates.
abbrev pub marked : ProjectionState → Text → ℕ → Projection → Projection
marked s message now p = record p {
  state = s;
  attempt_count = p.attempt_count + 1;
  last_error = message;
  updated_at = now;
}

abbrev pub update_projections :
    (Projection → Bool) → (Projection → Projection) → List Projection → List Projection
update_projections test f t = map (λ p. if test p then f p else p) t

-- `MarkTaskProjectionApplied`: the update stands, and it is an error unless it changed one row.
unfoldable pub mark_task_projection_applied :
    ℕ → Text → Text → List Projection → Result ⊤ × List Projection
mark_task_projection_applied now user decision t =
    let test = is_markable (trim_space user) (trim_space decision) in
    (
      if not (count test t == 1) then err conflict else ok tt,
      update_projections test (marked ProjectionState.applied [] now) t,
    )

-- `MarkTaskProjectionFailed`; `none` is the nil error.
unfoldable pub mark_task_projection_failed :
    ℕ → Text → Text → Option Text → List Projection → List Projection
mark_task_projection_failed now user decision reason t =
    let message : Text = elim reason [ none ↦ codes "projection failed" | some m ↦ m ] in
    update_projections (is_markable (trim_space user) (trim_space decision))
      (marked ProjectionState.failed message now) t
