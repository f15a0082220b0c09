-- ===== src/ControlPlane/Projections/Tests.antt =====
-- Marks on concrete data, and instances of the theorems.
use roambench.Base.{◌≡◌, refl, none, [], ◌∷◌, List}
use roambench.Base.Text.{Text, codes, text_eq, trim_space}
use roambench.ControlPlane.Errors.{ok, err, conflict}
use roambench.ControlPlane.Db.{ProjectionState, Projection}
use roambench.ControlPlane.Projections.{
  marked, mark_task_projection_applied, mark_task_projection_failed,
}
use roambench.ControlPlane.Projections.Once.{here, mark_task_projection_applied_again}

abbrev user : Text
user = codes "ian"

abbrev waiting : Projection
waiting = record {
  decision_id = codes "d1";
  username = user;
  request_id = codes "r1";
  response_id = codes "d1";
  state = ProjectionState.pending;
  attempt_count = 0;
  last_error = [];
  created_at = 1;
  updated_at = 1;
}

abbrev done : List Projection
done = marked ProjectionState.applied [] 5 waiting ∷ []

-- A failure may be tried again, and then succeeds.
retry :
    mark_task_projection_applied 5 user
      (codes "d1")
      (mark_task_projection_failed 3 user (codes "d1") none (waiting ∷ []))
    ≡ (
      ok tt,
      marked ProjectionState.applied [] 5
            (marked ProjectionState.failed (codes "projection failed") 3 waiting)
          ∷ [],
    )
unfolding mark_task_projection_applied mark_task_projection_failed text_eq trim_space
retry = refl

apply_waiting : (mark_task_projection_applied 5 user (codes "d1") (waiting ∷ [])).1 ≡ done
unfolding mark_task_projection_applied text_eq trim_space
apply_waiting = refl

fail_done : done ≡ mark_task_projection_failed 7 user (codes "d1") none done
unfolding mark_task_projection_failed text_eq trim_space
fail_done = refl

mark_task_projection_applied_again_example :
    mark_task_projection_applied 9 user
      (codes "d1")
      (mark_task_projection_applied 5 user (codes "d1") (waiting ∷ [])).1
    ≡ (err conflict, (mark_task_projection_applied 5 user (codes "d1") (waiting ∷ [])).1)
mark_task_projection_applied_again_example =
    mark_task_projection_applied_again 5 9 user (codes "d1") (waiting ∷ [])
      (mark_task_projection_applied 5 user (codes "d1") (waiting ∷ [])).1 here
