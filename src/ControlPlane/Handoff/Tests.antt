-- ===== src/ControlPlane/Handoff/Tests.antt =====
-- References and executions on concrete data, and instances of the theorems.
use roambench.Base.{ℕ, ◌≡◌, refl, false, ◌&&◌, some, [], ◌∷◌, List, find}
use roambench.Base.Text.{Text, codes, text_eq, is_empty, trim_space}
use roambench.ControlPlane.Errors.{ok}
use roambench.ControlPlane.Handoff.{
  SourceRef, same_pair, cleaned, repeat_ref, add_source_ref, AgentExecution, upsert_execution,
  agent_execution_by_sig, upsert_agent_execution,
}
use roambench.ControlPlane.Handoff.Refs.{
  IsValid, add, start, next, Reach-IsValid, add_source_ref-found,
}
use roambench.ControlPlane.Handoff.Executions.{agent_execution_by_sig-upsert}

abbrev user : Text
user = codes "ian"

abbrev ref_of : Text → Text → Text → ℕ → SourceRef
ref_of id relation snapshot now = record {
  id = id;
  username = user;
  target_task_id = codes "t2";
  source_task_id = codes "t1";
  relation = relation;
  snapshot = snapshot;
  source_terminal = codes "a";
  target_terminal = codes "b";
  copy_id = [];
  created_at = now;
}

abbrev one : List SourceRef
one = ref_of (codes "r1") (codes "reviews") (codes "x") 3 ∷ []

add_one :
    add_source_ref (codes "r1") 3 user (ref_of [] [] (codes "x") 0) []
    ≡ ok (ref_of (codes "r1") (codes "reviews") (codes "x") 3, one)
unfolding add_source_ref cleaned text_eq trim_space
add_one = refl

abbrev again : List SourceRef
again = ref_of (codes "r1") (codes "reviews") (codes "y") 8 ∷ []

-- The same pair with another snapshot takes the place of the old one, under its id.
add_again :
    add_source_ref (codes "r2") 8 user (ref_of [] (codes " reviews") (codes "y") 0) one
    ≡ ok (ref_of (codes "r1") (codes "reviews") (codes "y") 8, again)
unfolding add_source_ref repeat_ref cleaned text_eq trim_space
add_again = refl

Reach-IsValid_example : IsValid again
Reach-IsValid_example = Reach-IsValid (
    next
      (next start (
        add {t = []} {u = one} (codes "r1") 3 user (ref_of [] [] (codes "x") 0)
          (ref_of (codes "r1") (codes "reviews") (codes "x") 3) add_one))
      (add {t = one} {u = again} (codes "r2") 8 user (ref_of [] (codes " reviews") (codes "y") 0)
        (ref_of (codes "r1") (codes "reviews") (codes "y") 8) add_again))

add_source_ref-found_example :
    (x : SourceRef) × (find
        (same_pair (cleaned user (ref_of [] (codes " reviews") (codes "y") 0)))
        again
      ≡ some x)
    × (x.id ≡ codes "r1")
    × (x.created_at ≡ 8)
    × (is_empty (trim_space (codes "y")) ≡ false → x.snapshot ≡ codes "y")
add_source_ref-found_example =
    add_source_ref-found (codes "r2") 8 user (ref_of [] (codes " reviews") (codes "y") 0)
      (ref_of (codes "r1") (codes "reviews") (codes "y") 8) one again add_again

abbrev execution : Text → Text → ℕ → AgentExecution
execution id task now = record {
  id = id;
  username = user;
  terminal_id = codes "a";
  agent_sig = codes "42";
  agent_name = codes "codex";
  task_id = task;
  created_at = now;
}

abbrev second_goal : AgentExecution
second_goal = execution (codes "e1") (codes "t2") 6

-- A second goal of the same process takes the place of the first.
upsert_second :
    upsert_agent_execution
      (codes "e2")
      6
      user
      (execution [] (codes "t2") 0)
      (execution (codes "e1") (codes "t1") 1 ∷ [])
    ≡ ok (execution (codes "e1") (codes "t2") 6, execution (codes "e1") (codes "t2") 6 ∷ [])
unfolding upsert_agent_execution upsert_execution text_eq trim_space
upsert_second = refl

agent_execution_by_sig-upsert_example :
    (agent_execution_by_sig
        (trim_space user)
        (codes "a")
        (codes "42")
        (execution (codes "e1") (codes "t2") 6 ∷ [])
      ≡ some (execution (codes "e1") (codes "t2") 6))
    × (second_goal.task_id ≡ codes "t2")
    × (second_goal.agent_name ≡ codes "codex")
    × (second_goal.created_at ≡ 6)
agent_execution_by_sig-upsert_example =
    agent_execution_by_sig-upsert (codes "e2") 6 user (execution [] (codes "t2") 0)
      (execution (codes "e1") (codes "t2") 6) (execution (codes "e1") (codes "t1") 1 ∷ [])
      (execution (codes "e1") (codes "t2") 6 ∷ []) upsert_second

other_process :
    (text_eq (trim_space user) user
      && text_eq (trim_space (codes "a")) (trim_space (codes "a"))
      && text_eq (trim_space (codes "42")) (trim_space (codes "43")))
    ≡ false
unfolding text_eq trim_space
other_process = refl
