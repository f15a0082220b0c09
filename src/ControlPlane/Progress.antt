-- ===== src/ControlPlane/Progress.antt =====
-- The progress feed of a task: internal/controlplane/progress.go and the table task_progress. The
-- table is the list of its rows in insertion order.
pub mod Bounded
pub mod Isolation
pub mod Order
mod Tests
use roambench.Base.{
  ℕ, Bool, true, false, ◌&&◌, ◌||◌, not, List, [], ◌∷◌, ◌++◌, map, any, filter, take, ltb, leb,
  ◌==◌, if◌then◌else◌,
}
use roambench.Base.Text.{Text, codes, text_eq, is_empty, trim_space}
use roambench.ControlPlane.Errors.{Result, ok, err, validation}

-- A row; TaskProgress is what a reader sees of it. A sequence number below zero acts as 0.
pub record TaskProgress : Type 0 where
  pub username : Text
  pub task_id : Text
  pub seq : ℕ
  pub kind : Text
  pub text : Text
  pub created_at : ℕ

-- taskProgressLimit.
abbrev pub task_progress_limit : ℕ
task_progress_limit = 50

abbrev pub of_task : Text → Text → TaskProgress → Bool
of_task user task p = text_eq p.username user && text_eq p.task_id task

-- The primary key.
abbrev pub at_seq : Text → Text → ℕ → TaskProgress → Bool
at_seq user task seq p = of_task user task p && p.seq == seq

-- `INSERT INTO task_progress ... ON CONFLICT(username, task_id, seq) DO UPDATE`.
unfoldable pub upsert : TaskProgress → List TaskProgress → List TaskProgress
upsert p t =
    let test = at_seq p.username p.task_id p.seq in
    if any test t
    then map
        (λ q.
          if test q
          then record q { kind = p.kind; text = p.text; created_at = p.created_at }
          else q)
        t
    else t ++ p ∷ []

-- `ORDER BY seq DESC`.
unfoldable pub insert_newest : TaskProgress → List TaskProgress → List TaskProgress
insert_newest p [] = p ∷ []
insert_newest p (q ∷ qs) = if leb q.seq p.seq then p ∷ q ∷ qs else q ∷ insert_newest p qs

unfoldable pub newest_first : List TaskProgress → List TaskProgress
newest_first [] = []
newest_first (p ∷ ps) = insert_newest p (newest_first ps)

-- `seq IN (...)`.
abbrev pub is_among : List TaskProgress → ℕ → Bool
is_among ps seq = any (λ p. p.seq == seq) ps

-- `DELETE FROM task_progress WHERE ... AND seq NOT IN (...)`.
unfoldable pub prune : Text → Text → List TaskProgress → List TaskProgress
prune user task t =
    let kept = take task_progress_limit (newest_first (filter (of_task user task) t)) in
    filter (λ p. not (of_task user task p) || is_among kept p.seq) t

-- `AddTaskProgress`.
unfoldable pub add_task_progress :
    ℕ → Text → Text → ℕ → Text → Text → List TaskProgress → Result (List TaskProgress)
add_task_progress now user task seq kind text t =
    let user' = trim_space user in
    let task' = trim_space task in
    let kind' = trim_space (trim_space kind) in
    let text' = trim_space text in
    let p : TaskProgress = record {
      username = user';
      task_id = task';
      seq = seq;
      kind = if is_empty kind' then codes "raw" else kind';
      text = take 8192 text';
      created_at = now;
    } in
    if is_empty user' || is_empty task'
    then err validation
    else if ltb seq 1
    then err validation
    else if is_empty text'
    then ok t
    else ok (prune user' task' (upsert p t))

-- `ListTaskProgress`.
unfoldable pub list_task_progress : Text → Text → ℕ → List TaskProgress → Result (List TaskProgress)
list_task_progress user task after_seq t =
    let user' = trim_space user in
    let task' = trim_space task in
    if is_empty user' || is_empty task'
    then err validation
    else ok (
        take task_progress_limit
          (newest_first (filter (λ p. of_task user' task' p && ltb after_seq p.seq) t)))

-- `ClearTaskProgress`.
unfoldable pub clear_task_progress : Text → Text → List TaskProgress → List TaskProgress
clear_task_progress user task t = filter (λ p. not (of_task user task p)) t
