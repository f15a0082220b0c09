-- ===== src/ControlPlane/Progress/Tests.antt =====
-- Feeds on concrete data, and instances of the theorems.
use mathlib.Core.List.{Perm}
use roambench.Base.{
  ℕ, ◌≤◌, ◌&&◌, ◌≡◌, ◌⊎◌, refl, false, [], ◌∷◌, ◌++◌, List, count, filter, length, ltb,
}
use roambench.Base.Text.{Text, codes, text_eq, trim_space}
use roambench.ControlPlane.Errors.{ok}
use roambench.ControlPlane.Progress.{
  TaskProgress, task_progress_limit, of_task, at_seq, upsert, insert_newest, newest_first, prune,
  add_task_progress, list_task_progress,
}
use roambench.ControlPlane.Progress.Bounded.{IsBounded, add, start, next, Reach-IsBounded}
use roambench.ControlPlane.Progress.Order.{IsDescending, list_task_progress-newest}

abbrev user : Text
user = codes "ian"

abbrev event : Text → ℕ → Text → TaskProgress
event task n text = record {
  username = user;
  task_id = task;
  seq = n;
  kind = codes "raw";
  text = text;
  created_at = 9;
}

abbrev one : List TaskProgress
one = event (codes "t1") 1 (codes "a") ∷ []

abbrev two : List TaskProgress
two = event (codes "t1") 1 (codes "a") ∷ event (codes "t1") 2 (codes "b") ∷ []

add_first : add_task_progress 9 user (codes " t1") 1 [] (codes "a ") [] ≡ ok one
unfolding add_task_progress upsert prune newest_first insert_newest text_eq trim_space
add_first = refl

add_second : add_task_progress 9 user (codes "t1") 2 [] (codes "b") one ≡ ok two
unfolding add_task_progress upsert prune newest_first insert_newest text_eq trim_space
add_second = refl

Reach-IsBounded_example :
    ((n : ℕ) → count (at_seq user (codes "t1") n) two ≤ 1) × IsBounded user (codes "t1") two
Reach-IsBounded_example =
    Reach-IsBounded
      (next (next start (add {t = []} {u = one} 9 user (codes " t1") 1 [] (codes "a ") add_first))
        (add {t = one} {u = two} 9 user (codes "t1") 2 [] (codes "b") add_second))
      user (codes "t1")

trimmed_apart :
    (text_eq (trim_space user) user && text_eq (trim_space (codes "t1")) (codes "t2")) ≡ false
unfolding text_eq trim_space
trimmed_apart = refl

list_two :
    list_task_progress user (codes "t1") 0 two
    ≡ ok (event (codes "t1") 2 (codes "b") ∷ event (codes "t1") 1 (codes "a") ∷ [])
unfolding list_task_progress newest_first insert_newest text_eq trim_space
list_two = refl

abbrev shown : List TaskProgress
shown = event (codes "t1") 2 (codes "b") ∷ event (codes "t1") 1 (codes "a") ∷ []

list_task_progress-newest_example :
    (rest : List TaskProgress) × Perm
      (shown ++ rest)
      (filter (λ p. of_task (trim_space user) (trim_space (codes "t1")) p && ltb 0 p.seq) two)
    × IsDescending (shown ++ rest)
    × (length shown ≤ task_progress_limit)
    × ((length shown ≡ task_progress_limit) ⊎ (rest ≡ []))
list_task_progress-newest_example = list_task_progress-newest user (codes "t1") 0 two shown list_two
