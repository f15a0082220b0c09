-- ===== src/ControlPlane/Projections/Once.antt =====
-- Sequences of marks on task projections.
use roambench.Base.{
  ℕ, suc, zero, ◌≤◌, ◌≡◌, refl, Bool, false, Option, some, List, [], ◌∷◌, count, arith, get_elem?,
}
use roambench.Base.Text.{Text, trim_space}
use roambench.ControlPlane.Errors.{err, conflict}
use roambench.ControlPlane.Db.{ProjectionState, Projection}
use roambench.ControlPlane.Projections.{
  is_open, is_markable, marked, update_projections, mark_task_projection_applied,
  mark_task_projection_failed,
}

pub data Step : List Projection → List Projection → Type 0 where
  apply :
      {t u : List Projection} (now : ℕ) (user decision : Text)
      → u ≡ (mark_task_projection_applied now user decision t).1
      → Step t u
  fail :
      {t u : List Projection} (now : ℕ) (user decision : Text) (reason : Option Text)
      → u ≡ mark_task_projection_failed now user decision reason t
      → Step t u

pub data Reach : List Projection → List Projection → Type 0 where
  here : {t : List Projection} → Reach t t
  next : {t u v : List Projection} → Reach t u → Step u v → Reach t v

-- A mark never makes a row markable, whatever row it is and whichever decision is meant.
count-update :
    (user decision u d m : Text) (s : ProjectionState) (now : ℕ) (t : List Projection)
    → count (is_markable user decision) (update_projections (is_markable u d) (marked s m now) t)
      ≤ count (is_markable user decision) t
count-update user decision u d m ProjectionState.pending now [] = omega arith
count-update user decision u d m ProjectionState.pending now (p ∷ t) =
    ground (arith, count-update user decision u d m ProjectionState.pending now t)
count-update user decision u d m ProjectionState.applied now [] = omega arith
count-update user decision u d m ProjectionState.applied now (p ∷ t) =
    ground (arith, count-update user decision u d m ProjectionState.applied now t)
count-update user decision u d m ProjectionState.failed now [] = omega arith
count-update user decision u d m ProjectionState.failed now (p ∷ t) =
    ground (arith, count-update user decision u d m ProjectionState.failed now t)

Step-count :
    {t v : List Projection} (user decision : Text)
    → Step t v
    → count (is_markable user decision) v ≤ count (is_markable user decision) t
unfolding mark_task_projection_applied mark_task_projection_failed
Step-count {t} {v} user decision (apply now u d e) =
    rw e (count-update user decision (trim_space u) (trim_space d) [] ProjectionState.applied now t)
Step-count {t} {v} user decision (fail now u d reason e) =
    rw e (count-update user decision (trim_space u) (trim_space d) _ ProjectionState.failed now t)

Reach-count :
    {t v : List Projection} (user decision : Text)
    → Reach t v
    → count (is_markable user decision) v ≤ count (is_markable user decision) t
Reach-count user decision here = omega arith
Reach-count user decision (next r s) =
    omega (arith, Reach-count user decision r, Step-count user decision s)

count-applied :
    (user decision : Text) (now : ℕ) (t : List Projection)
    → count
        (is_markable user decision)
        (update_projections (is_markable user decision) (marked ProjectionState.applied [] now) t)
      ≡ 0
count-applied user decision now [] = refl
count-applied user decision now (p ∷ t) = ground (arith, count-applied user decision now t)

update_none :
    (test : Projection → Bool) (f : Projection → Projection) (t : List Projection)
    → count test t ≡ 0
    → update_projections test f t ≡ t
update_none test f [] h = refl
update_none test f (p ∷ t) h = ground (arith, update_none test f t)

-- A decision is applied at most once: after a call of MarkTaskProjectionApplied, whatever marks follow,
-- another such call for the same decision is refused with ErrConflict and changes nothing.
pub mark_task_projection_applied_again :
    (now later : ℕ) (user decision : Text) (t u : List Projection)
    → Reach (mark_task_projection_applied now user decision t).1 u
    → mark_task_projection_applied later user decision u ≡ (err conflict, u)
unfolding mark_task_projection_applied
mark_task_projection_applied_again now later user decision t u r =
    let test = is_markable (trim_space user) (trim_space decision) in
    let none_left : count test u ≡ 0 = omega (
      arith,
      Reach-count (trim_space user) (trim_space decision) r,
      count-applied (trim_space user) (trim_space decision) now t,
    ) in
    rw (none_left, update_none test (marked ProjectionState.applied [] later) u none_left) refl

update-applied :
    (u d m : Text) (s : ProjectionState) (now : ℕ) (t : List Projection) (i : ℕ) (p : Projection)
    → get_elem? t i ≡ some p
    → is_open p.state ≡ false
    → get_elem? (update_projections (is_markable u d) (marked s m now) t) i ≡ some p
update-applied u d m s now (q ∷ t) (suc i) p e h = update-applied u d m s now t i p e h
update-applied u d m s now (q ∷ t) zero p e h =
    let same : q ≡ p = ground arith in
    let closed : is_open q.state ≡ false = rw same h in ground arith
update-applied u d m s now [] i p e h = absurd (ground arith)

-- A projection that was applied is the same row after whatever marks follow.
pub Reach-applied :
    {t u : List Projection}
    → Reach t u
    → (i : ℕ) (p : Projection) → get_elem? t i ≡ some p
    → is_open p.state ≡ false
    → get_elem? u i ≡ some p
unfolding mark_task_projection_applied mark_task_projection_failed
Reach-applied here i p e h = e
Reach-applied (next {u = m} r (apply now u d q)) i p e h = rw q (
    update-applied (trim_space u) (trim_space d) [] ProjectionState.applied now m i p
      (Reach-applied r i p e h) h)
Reach-applied (next {u = m} r (fail now u d reason q)) i p e h = rw q (
    update-applied (trim_space u) (trim_space d) _ ProjectionState.failed now m i p
      (Reach-applied r i p e h) h)
