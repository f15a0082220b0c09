-- ===== src/ControlPlane/Progress/Bounded.antt =====
-- How long a feed gets.
use roambench.Base.{
  count-filter, count-map, count-snoc, count-none, ℕ, suc, ◌+◌, ◌≤◌, ◌≡◌, refl, ap, Bool, true,
  false, ◌&&◌, ◌||◌, not, inl, inr, List, [], ◌∷◌, any, filter, take, arith, Bool-cases, ◌==◌,
  count, length, zero,
}
use roambench.Base.Text.{Text, text_eq, text_eq_iff, trim_space}
use roambench.ControlPlane.Errors.{ok}
use roambench.ControlPlane.Progress.{
  TaskProgress, task_progress_limit, of_task, at_seq, upsert, newest_first, is_among, prune,
  add_task_progress, clear_task_progress,
}
use roambench.ControlPlane.Progress.Isolation.{feed, add_task_progress-ok, add_task_progress-other}

-- The primary key is unique.
abbrev pub IsValid : List TaskProgress → Type 0
IsValid t = (user task : Text) (seq : ℕ) → count (at_seq user task seq) t ≤ 1

-- The feed of a task is within its limit.
abbrev pub IsBounded : Text → Text → List TaskProgress → Type 0
IsBounded user task t = count (of_task user task) t ≤ task_progress_limit

at_seq-own :
    (p : TaskProgress) (user task : Text) (seq : ℕ)
    → at_seq user task seq p ≡ true
    → (user ≡ p.username) × (task ≡ p.task_id) × (seq ≡ p.seq)
at_seq-own p user task seq h =
    ground (arith, text_eq_iff p.username user, text_eq_iff p.task_id task)

upsert-IsValid : (p : TaskProgress) (t : List TaskProgress) → IsValid t → IsValid (upsert p t)
unfolding upsert
upsert-IsValid p t v user task seq =
    let test = at_seq p.username p.task_id p.seq in
    let f = λ (q : TaskProgress). (record q {
      kind = p.kind;
      text = p.text;
      created_at = p.created_at;
    }) in
    elim (Bool-cases (any test t)) [
      | inl held ↦
          rw held
            (omega (arith, count-map (at_seq user task seq) test f t (λ r. refl), v user task seq))
      | inr free ↦
          rw (free, count-snoc (at_seq user task seq) t p)
            (elim (Bool-cases (at_seq user task seq p)) [
              | inl own ↦
                  let (a, b, c) = at_seq-own p user task seq own in
                  let none_yet : count (at_seq user task seq) t ≡ 0 =
                    rw (a, b, c) (count-none test t free) in
                  ground arith
              | inr other ↦ ground (arith, v user task seq)
            ])
    ]

prune-IsValid : (user task : Text) (t : List TaskProgress) → IsValid t → IsValid (prune user task t)
unfolding prune
prune-IsValid user task t v u k s = omega (arith, count-filter (at_seq u k s) _ t, v u k s)

length-take_le : (n : ℕ) (ps : List TaskProgress) → length (take n ps) ≤ n
length-take_le zero ps = omega arith
length-take_le (suc n) [] = omega arith
length-take_le (suc n) (p ∷ ps) = omega (arith, length-take_le n ps)

count-blank :
    (user task : Text) (t : List TaskProgress) → count (λ r. of_task user task r && false) t ≡ 0
count-blank user task [] = refl
count-blank user task (r ∷ t) = ground (arith, count-blank user task t)

count-or :
    (o p q : TaskProgress → Bool) (t : List TaskProgress)
    → count (λ r. o r && (p r || q r)) t ≤ count (λ r. o r && p r) t + count (λ r. o r && q r) t
count-or o p q [] = omega arith
count-or o p q (r ∷ t) = ground (arith, count-or o p q t)

count-same :
    (user task : Text) (n : ℕ) (t : List TaskProgress)
    → count (λ r. of_task user task r && n == r.seq) t ≡ count (at_seq user task n) t
count-same user task n [] = refl
count-same user task n (r ∷ t) = ground (arith, count-same user task n t)

-- Rows whose numbers are among those of a list are no more than the list is long.
count-among :
    (user task : Text) (t ps : List TaskProgress)
    → IsValid t
    → count (λ r. of_task user task r && is_among ps r.seq) t ≤ length ps
count-among user task t [] v = omega (arith, count-blank user task t)
count-among user task t (p ∷ ps) v = omega (
  arith,
  count-or (of_task user task) (λ r. p.seq == r.seq) (λ r. is_among ps r.seq) t,
  count-among user task t ps v,
  count-same user task p.seq t,
  v user task p.seq,
)

count-prune :
    (q o : TaskProgress → Bool) (t : List TaskProgress)
    → count o (filter (λ r. not (o r) || q r) t) ≡ count (λ r. o r && q r) t
count-prune q o [] = refl
count-prune q o (r ∷ t) = ground (arith, count-prune q o t)

prune-IsBounded :
    (user task : Text) (t : List TaskProgress) → IsValid t → IsBounded user task (prune user task t)
unfolding prune
prune-IsBounded user task t v =
    let newest = newest_first (filter (of_task user task) t) in
    let kept = take task_progress_limit newest in
    omega (
      arith,
      count-prune (λ r. is_among kept r.seq) (of_task user task) t,
      count-among user task t kept v,
      length-take_le task_progress_limit newest,
    )

count-feed :
    (user task : Text) (t : List TaskProgress)
    → count (of_task user task) t ≡ length (feed user task t)
count-feed user task [] = refl
count-feed user task (r ∷ t) = ground (arith, count-feed user task t)

-- The calls that change the table.
pub data Step : List TaskProgress → List TaskProgress → Type 0 where
  add :
      {t u : List TaskProgress} (now : ℕ) (user task : Text) (seq : ℕ) (kind text : Text)
      → add_task_progress now user task seq kind text t ≡ ok u
      → Step t u
  clear :
      {t u : List TaskProgress} (user task : Text) → u ≡ clear_task_progress user task t → Step t u

pub data Reach : List TaskProgress → Type 0 where
  start : Reach []
  next : {t u : List TaskProgress} → Reach t → Step t u → Reach u

-- What holds of the table between calls.
abbrev pub IsKept : List TaskProgress → Type 0
IsKept t = IsValid t × ((user task : Text) → IsBounded user task t)

add-IsKept :
    (now : ℕ) (user task : Text) (seq : ℕ) (kind text : Text) (t u : List TaskProgress)
    → IsKept t
    → add_task_progress now user task seq kind text t ≡ ok u
    → IsKept u
add-IsKept now user task seq kind text t u k e =
    elim (add_task_progress-ok now user task seq kind text t u e) [
      | inl (blank, same) ↦ rw same k
      | inr (stored, same) ↦
          let valid = upsert-IsValid _ t k.0 in
          (
            rw same (prune-IsValid (trim_space user) (trim_space task) _ valid),
            λ w x. elim (Bool-cases (text_eq (trim_space user) w && text_eq (trim_space task) x)) [
              | inl own ↦
                  let mine = prune-IsBounded (trim_space user) (trim_space task) _ valid in
                  ground (
                    arith,
                    same,
                    mine,
                    text_eq_iff (trim_space user) w,
                    text_eq_iff (trim_space task) x,
                  )
              | inr other ↦
                  let f = add_task_progress-other now user task seq kind text w x t u other e in
                  omega (arith, count-feed w x t, count-feed w x u, ap length f, k.1 w x)
            ],
          )
    ]

Step-IsKept : {t u : List TaskProgress} → Step t u → IsKept t → IsKept u
unfolding clear_task_progress
Step-IsKept {t} {u} (add now user task seq kind text e) k =
    add-IsKept now user task seq kind text t u k e
Step-IsKept {t} {u} (clear user task e) k = (
  λ w x s.
      rw e
        (omega (arith, count-filter (at_seq w x s) (λ p. not (of_task user task p)) t, k.0 w x s)),
  λ w x.
      rw e (omega (arith, count-filter (of_task w x) (λ p. not (of_task user task p)) t, k.1 w x)),
)

Reach-IsKept : {t : List TaskProgress} → Reach t → IsKept t
Reach-IsKept start = (λ w x s. omega arith, λ w x. omega arith)
Reach-IsKept (next r s) = Step-IsKept s (Reach-IsKept r)

-- However events are added to the feeds of any tasks and feeds are cleared, no two rows of a task have the
-- same number, and no task has more rows than the limit.
pub Reach-IsBounded :
    {t : List TaskProgress}
    → Reach t
    → (user task : Text) → ((seq : ℕ) → count (at_seq user task seq) t ≤ 1) × IsBounded user task t
Reach-IsBounded {t} r user task = let k = Reach-IsKept r in (k.0 user task, k.1 user task)
