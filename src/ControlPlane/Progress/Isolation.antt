-- ===== src/ControlPlane/Progress/Isolation.antt =====
-- The feeds of different tasks (internal/controlplane/progress.go).
use roambench.Base.{
  ℕ, ◌≡◌, refl, ◌∙◌, Bool, true, false, ◌&&◌, inl, inr, ◌⊎◌, List, [], ◌∷◌, ◌++◌, map, any, filter,
  take, if◌then◌else◌, arith, Bool-cases,
}
use roambench.Base.Text.{Text, codes, text_eq, text_eq_iff, is_empty, trim_space}
use roambench.ControlPlane.Errors.{ok}
use roambench.ControlPlane.Progress.{
  TaskProgress, of_task, at_seq, upsert, prune, add_task_progress,
}

-- A feed, row by row in the order of the table.
abbrev pub feed : Text → Text → List TaskProgress → List TaskProgress
feed user task t = filter (of_task user task) t

-- Two pairs of a user and a task differ.
abbrev pub Apart : Text → Text → Text → Text → Type 0
Apart user task u k = (text_eq user u && text_eq task k) ≡ false

filter-kept :
    (p q : TaskProgress → Bool) (t : List TaskProgress)
    → ((r : TaskProgress) → p r ≡ true → q r ≡ true)
    → filter p (filter q t) ≡ filter p t
filter-kept p q [] h = refl
filter-kept p q (r ∷ t) h = elim (Bool-cases (p r)) [
  | inl hit ↦ ground (arith, filter-kept p q t h, h r hit)
  | inr miss ↦ ground (arith, filter-kept p q t h)
]

other-task :
    (user task u k : Text) (r : TaskProgress)
    → Apart user task u k
    → of_task u k r ≡ true
    → of_task user task r ≡ false
other-task user task u k r a h = ground (
  arith,
  text_eq_iff r.username u,
  text_eq_iff r.task_id k,
  text_eq_iff r.username user,
  text_eq_iff r.task_id task,
  text_eq_iff user u,
  text_eq_iff task k,
)

filter-map_other :
    (p q : TaskProgress → Bool) (f : TaskProgress → TaskProgress) (t : List TaskProgress)
    → ((r : TaskProgress) → p (f r) ≡ p r)
    → ((r : TaskProgress) → p r ≡ true → q r ≡ false)
    → filter p (map (λ r. if q r then f r else r) t) ≡ filter p t
filter-map_other p q f [] same out = refl
filter-map_other p q f (r ∷ t) same out = elim (Bool-cases (q r)) [
  | inl hit ↦ elim (Bool-cases (p r)) [
    | inl bad ↦ absurd (ground (arith, out r bad))
    | inr out_of ↦ ground (arith, filter-map_other p q f t same out, same r)
  ]
  | inr miss ↦ ground (arith, filter-map_other p q f t same out)
]

filter-snoc :
    (p : TaskProgress → Bool) (t : List TaskProgress) (r : TaskProgress)
    → p r ≡ false
    → filter p (t ++ r ∷ []) ≡ filter p t
filter-snoc p [] r h = ground arith
filter-snoc p (x ∷ t) r h = ground (arith, filter-snoc p t r h)

upsert-other :
    (p : TaskProgress) (u k : Text) (t : List TaskProgress)
    → Apart p.username p.task_id u k
    → feed u k (upsert p t) ≡ feed u k t
unfolding upsert
upsert-other p u k t a =
    let test = at_seq p.username p.task_id p.seq in
    let f = λ (q : TaskProgress). (record q {
      kind = p.kind;
      text = p.text;
      created_at = p.created_at;
    }) in
    elim (Bool-cases (any test t)) [
      | inl held ↦ rw held (
          filter-map_other (of_task u k) test f t (λ r. refl)
            (λ r h. ground (arith, other-task p.username p.task_id u k r a h)))
      | inr free ↦ rw free (
          filter-snoc (of_task u k) t p (
            ground (
              arith,
              other-task p.username p.task_id u k p a,
              text_eq_iff p.username u,
              text_eq_iff p.task_id k,
            )))
    ]

prune-other :
    (user task u k : Text) (t : List TaskProgress)
    → Apart user task u k
    → feed u k (prune user task t) ≡ feed u k t
unfolding prune
prune-other user task u k t a =
    filter-kept (of_task u k) _ t (λ r h. ground (arith, other-task user task u k r a h))

-- What a call that succeeds leaves: the table as it was for a blank text, otherwise the row, with the feed
-- pruned.
pub add_task_progress-ok :
    (now : ℕ) (user task : Text) (seq : ℕ) (kind text : Text) (t t' : List TaskProgress)
    → add_task_progress now user task seq kind text t ≡ ok t'
    → ((is_empty (trim_space text) ≡ true) × (t' ≡ t))
      ⊎ ((is_empty (trim_space text) ≡ false)
          × (t'
              ≡ prune (trim_space user) (trim_space task) (
                  upsert
                    (record {
                      username = trim_space user;
                      task_id = trim_space task;
                      seq = seq;
                      kind =
                          (if is_empty (trim_space (trim_space kind))
                            then codes "raw"
                            else trim_space (trim_space kind));
                      text = take 8192 (trim_space text);
                      created_at = now;
                    })
                    t)))
unfolding add_task_progress
add_task_progress-ok now user task seq kind text t t' e = ground arith

-- What is added to the feed of a task, or pruned from it, leaves the feed of every other task and user as
-- it was.
pub add_task_progress-other :
    (now : ℕ) (user task : Text) (seq : ℕ) (kind text u k : Text) (t t' : List TaskProgress)
    → Apart (trim_space user) (trim_space task) u k
    → add_task_progress now user task seq kind text t ≡ ok t'
    → feed u k t' ≡ feed u k t
add_task_progress-other now user task seq kind text u k t t' a e =
    let user' = trim_space user in
    let task' = trim_space task in
    elim (add_task_progress-ok now user task seq kind text t t' e) [
      | inl (blank, same) ↦ rw same refl
      | inr (stored, same) ↦ rw same (prune-other user' task' u k _ a ∙ upsert-other _ u k t a)
    ]
