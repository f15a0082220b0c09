-- ===== src/ControlPlane/Progress/Order.antt =====
-- What a reader of a feed is shown.
use mathlib.Core.List.{Perm}
use mathlib.Core.List.Perm
use roambench.Base.{
  ℕ, suc, zero, ◌≤◌, ◌≡◌, refl, sym, ap, subst, ◌∙◌, ◌&&◌, ◌⊎◌, inl, inr, List, [], ◌∷◌, ◌++◌,
  filter, take, drop, leb, ltb, arith, Bool-cases, length, All, take-append-drop, leb→le, ⊤,
}
use roambench.Base.Text.{Text, trim_space}
use roambench.ControlPlane.Errors.{ok}
use roambench.ControlPlane.Progress.{
  TaskProgress, task_progress_limit, of_task, insert_newest, newest_first, list_task_progress,
}

-- Later rows have no greater number.
abbrev pub IsDescending : List TaskProgress → Type 0
IsDescending [] = ⊤
IsDescending (p ∷ ps) = All (λ q. q.seq ≤ p.seq) ps × IsDescending ps

insert_newest-All :
    (P : TaskProgress → Type 0) (p : TaskProgress) (ps : List TaskProgress)
    → P p
    → All P ps
    → All P (insert_newest p ps)
unfolding insert_newest
insert_newest-All P p [] h hs = (h, tt)
insert_newest-All P p (q ∷ qs) h hs = elim (Bool-cases (leb q.seq p.seq)) [
  | inl le ↦ rw le (h, hs)
  | inr gt ↦ rw gt (hs.0, insert_newest-All P p qs h hs.1)
]

All-le :
    (m n : ℕ) (ps : List TaskProgress) → m ≤ n → All (λ q. q.seq ≤ m) ps → All (λ q. q.seq ≤ n) ps
All-le m n [] h hs = tt
All-le m n (p ∷ ps) h hs = (omega (arith, h, hs.0), All-le m n ps h hs.1)

insert_newest-IsDescending :
    (p : TaskProgress) (ps : List TaskProgress)
    → IsDescending ps
    → IsDescending (insert_newest p ps)
unfolding insert_newest
insert_newest-IsDescending p [] d = (tt, tt)
insert_newest-IsDescending p (q ∷ qs) d = elim (Bool-cases (leb q.seq p.seq)) [
  | inl le ↦ let h = leb→le q.seq p.seq le in rw le ((h, All-le q.seq p.seq qs h d.0), d)
  | inr gt ↦ rw gt (
    insert_newest-All (λ r. r.seq ≤ q.seq) p qs (ground arith) d.0,
    insert_newest-IsDescending p qs d.1,
  )
]

newest_first-IsDescending : (ps : List TaskProgress) → IsDescending (newest_first ps)
unfolding newest_first
newest_first-IsDescending [] = tt
newest_first-IsDescending (p ∷ ps) =
    insert_newest-IsDescending p (newest_first ps) (newest_first-IsDescending ps)

length-take_newest : (n : ℕ) (ps : List TaskProgress) → length (take n ps) ≤ n
length-take_newest zero ps = omega arith
length-take_newest (suc n) [] = omega arith
length-take_newest (suc n) (p ∷ ps) = omega (arith, length-take_newest n ps)

insert_newest-Perm :
    (p : TaskProgress) (ps : List TaskProgress) → Perm (insert_newest p ps) (p ∷ ps)
unfolding insert_newest
insert_newest-Perm p [] = Perm.refl (p ∷ [])
insert_newest-Perm p (q ∷ qs) = elim (Bool-cases (leb q.seq p.seq)) [
  | inl le ↦ rw le (Perm.refl (p ∷ q ∷ qs))
  | inr gt ↦ rw gt (Perm.trans (Perm.cons q (insert_newest-Perm p qs)) (Perm.swap p q qs))
]

newest_first-Perm : (ps : List TaskProgress) → Perm (newest_first ps) ps
unfolding newest_first
newest_first-Perm [] = Perm.refl []
newest_first-Perm (p ∷ ps) =
    Perm.trans (insert_newest-Perm p (newest_first ps)) (Perm.cons p (newest_first-Perm ps))

-- All the rows are taken, or as many as are asked for.
take-full : (n : ℕ) (ps : List TaskProgress) → (length (take n ps) ≡ n) ⊎ (drop n ps ≡ [])
take-full zero ps = inl refl
take-full (suc n) [] = inr refl
take-full (suc n) (p ∷ ps) = elim (take-full n ps) [
  | inl full ↦ inl (omega (arith, full))
  | inr none_left ↦ inr none_left
]

-- A feed that is listed is the newest part of the rows of the task that are newer than the number asked
-- for: with the rows that are left off it is exactly those rows, in falling order of their numbers;
-- it has no more rows than the limit, and some are left off only where it has as many as the limit.
pub list_task_progress-newest :
    (user task : Text) (after_seq : ℕ) (t ps : List TaskProgress)
    → list_task_progress user task after_seq t ≡ ok ps
    → (rest : List TaskProgress) × Perm
        (ps ++ rest)
        (filter (λ p. of_task (trim_space user) (trim_space task) p && ltb after_seq p.seq) t)
      × IsDescending (ps ++ rest)
      × (length ps ≤ task_progress_limit)
      × ((length ps ≡ task_progress_limit) ⊎ (rest ≡ []))
unfolding list_task_progress
list_task_progress-newest user task after_seq t ps e =
    let test =
      λ (p : TaskProgress). of_task (trim_space user) (trim_space task) p && ltb after_seq p.seq in
    let rows = newest_first (filter test t) in
    let rest = drop task_progress_limit rows in
    let same : take task_progress_limit rows ≡ ps = ground arith in
    let whole : rows ≡ ps ++ rest =
      sym (take-append-drop task_progress_limit rows) ∙ ap (λ z. z ++ rest) same in
    (
      rest,
      subst (λ z. Perm z (filter test t)) whole (newest_first-Perm (filter test t)),
      subst IsDescending whole (newest_first-IsDescending (filter test t)),
      rw (sym same) (length-take_newest task_progress_limit rows),
      rw (sym same) (take-full task_progress_limit rows),
    )
