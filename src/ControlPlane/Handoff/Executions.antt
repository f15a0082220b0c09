-- ===== src/ControlPlane/Handoff/Executions.antt =====
-- The task that an agent process works on.
use roambench.Base.{
  ℕ, ◌≡◌, refl, sym, ◌∙◌, Bool, true, false, ◌&&◌, inl, inr, some, List, [], ◌∷◌, ◌++◌, map, any,
  find, if◌then◌else◌, arith, Bool-cases, Option-cases, find-update, find-snoc, any-find,
}
use roambench.Base.Text.{Text, text_eq, text_eq_iff, text_eq_refl, trim_space}
use roambench.ControlPlane.Errors.{Result-cases, ok}
use roambench.ControlPlane.Handoff.{
  AgentExecution, at_process, upsert_execution, agent_execution_by_sig, upsert_agent_execution,
}

at_process-own : (e : AgentExecution) → at_process e.username e.terminal_id e.agent_sig e ≡ true
at_process-own e =
    ground (arith, text_eq_refl e.username, text_eq_refl e.terminal_id, text_eq_refl e.agent_sig)

find-any :
    (p : AgentExecution → Bool) (t : List AgentExecution) (a : AgentExecution)
    → find p t ≡ some a
    → (any p t ≡ true) × (p a ≡ true)
find-any p [] a h = absurd (ground arith)
find-any p (x ∷ t) a h = elim (Bool-cases (p x)) [
  | inl hit ↦ let same : x ≡ a = ground arith in (ground arith, rw (sym same) hit)
  | inr miss ↦ let ih = find-any p t a (ground arith) in (ground (arith, ih.0), ih.1)
]

-- The row that is found for the process after an upsert.
upsert_execution-find :
    (e : AgentExecution) (t u : List AgentExecution)
    → upsert_execution e t ≡ ok u
    → (x : AgentExecution) × (find (at_process e.username e.terminal_id e.agent_sig) u ≡ some x)
      × (x.task_id ≡ e.task_id)
      × (x.agent_name ≡ e.agent_name)
      × (x.created_at ≡ e.created_at)
unfolding upsert_execution
upsert_execution-find e t u h =
    let test = at_process e.username e.terminal_id e.agent_sig in
    let f = λ (x : AgentExecution). (record x {
      task_id = e.task_id;
      agent_name = e.agent_name;
      created_at = e.created_at;
    }) in
    elim (Option-cases (find test t)) [
      | inl missing ↦
          let free = any-find test t missing in
          let table : t ++ e ∷ [] ≡ u = ground arith in
          (e, rw (sym table) (find-snoc test t e missing (at_process-own e)), refl, refl, refl)
      | inr (a, found) ↦
          let held = find-any test t a found in
          let table : map (λ x. if test x then f x else x) t ≡ u = ground (arith, held.0) in
          let there = find-update test test f t a (λ r. refl) found in
          (f a, rw (sym table) (there ∙ rw held.1 refl), refl, refl, refl)
    ]

-- The row that a call inserts.
abbrev given : Text → ℕ → Text → AgentExecution → AgentExecution
given new_id now user input = record input {
  id = new_id;
  username = trim_space user;
  terminal_id = trim_space input.terminal_id;
  agent_sig = trim_space input.agent_sig;
  created_at = now;
}

upsert_agent_execution-ok :
    (new_id : Text) (now : ℕ) (user : Text) (input out : AgentExecution) (t u : List AgentExecution)
    → upsert_agent_execution new_id now user input t ≡ ok (out, u)
    → (upsert_execution (given new_id now user input) t ≡ ok u)
      × (find
            (at_process
              (trim_space user)
              (trim_space input.terminal_id)
              (trim_space input.agent_sig))
            u
          ≡ some out)
unfolding upsert_agent_execution
upsert_agent_execution-ok new_id now user input out t u h =
    elim (Result-cases (upsert_execution (given new_id now user input) t)) [
      | inr (x, broken) ↦ absurd (ground arith)
      | inl (v, stored) ↦
          elim (Option-cases (
            find
              (at_process (trim_space user) (trim_space input.terminal_id)
                (trim_space input.agent_sig))
              v)) [ inl missing ↦ absurd (ground arith) | inr (w, found) ↦ ground arith ]
    ]

-- After an upsert the process is found to work on the task that was given last, and the row that is returned
-- is the one that is found.
pub agent_execution_by_sig-upsert :
    (new_id : Text) (now : ℕ) (user : Text) (input out : AgentExecution) (t u : List AgentExecution)
    → upsert_agent_execution new_id now user input t ≡ ok (out, u)
    → (agent_execution_by_sig (trim_space user) input.terminal_id input.agent_sig u ≡ some out)
      × (out.task_id ≡ input.task_id)
      × (out.agent_name ≡ input.agent_name)
      × (out.created_at ≡ now)
unfolding agent_execution_by_sig
agent_execution_by_sig-upsert new_id now user input out t u h =
    let e = given new_id now user input in
    let (stored, read) = upsert_agent_execution-ok new_id now user input out t u h in
    let (x, found, task, name, time) = upsert_execution-find e t u stored in
    let same : x ≡ out = ground (arith, found, read) in
    (read, rw (sym same) task, rw (sym same) name, rw (sym same) time)

find-kept :
    (p q : AgentExecution → Bool) (f : AgentExecution → AgentExecution) (t : List AgentExecution)
    → ((r : AgentExecution) → p (f r) ≡ p r)
    → ((r : AgentExecution) → p r ≡ true → q r ≡ false)
    → find p (map (λ r. if q r then f r else r) t) ≡ find p t
find-kept p q f [] same out = refl
find-kept p q f (r ∷ t) same out = elim (Bool-cases (p r)) [
  | inl hit ↦ ground (arith, out r hit)
  | inr miss ↦ ground (arith, find-kept p q f t same out, same r)
]

find-snoc_other :
    (p : AgentExecution → Bool) (t : List AgentExecution) (r : AgentExecution)
    → p r ≡ false
    → find p (t ++ r ∷ []) ≡ find p t
find-snoc_other p [] r h = ground arith
find-snoc_other p (x ∷ t) r h = ground (arith, find-snoc_other p t r h)

-- Two different processes are not at one row.
at_process-other :
    (e x : AgentExecution) (user terminal sig : Text)
    → at_process user terminal sig e ≡ false
    → at_process user terminal sig x ≡ true
    → at_process e.username e.terminal_id e.agent_sig x ≡ false
at_process-other e x user terminal sig a h = ground (
  arith,
  text_eq_iff x.username user,
  text_eq_iff x.terminal_id terminal,
  text_eq_iff x.agent_sig sig,
  text_eq_iff x.username e.username,
  text_eq_iff x.terminal_id e.terminal_id,
  text_eq_iff x.agent_sig e.agent_sig,
  text_eq_iff e.username user,
  text_eq_iff e.terminal_id terminal,
  text_eq_iff e.agent_sig sig,
)

upsert_execution-other :
    (e : AgentExecution) (t u : List AgentExecution) (user terminal sig : Text)
    → upsert_execution e t ≡ ok u
    → at_process user terminal sig e ≡ false
    → find (at_process user terminal sig) u ≡ find (at_process user terminal sig) t
unfolding upsert_execution
upsert_execution-other e t u user terminal sig h a =
    let test = at_process e.username e.terminal_id e.agent_sig in
    let f = λ (x : AgentExecution). (record x {
      task_id = e.task_id;
      agent_name = e.agent_name;
      created_at = e.created_at;
    }) in
    elim (Bool-cases (any test t)) [
      | inl held ↦
          let table : map (λ x. if test x then f x else x) t ≡ u = ground arith in
          rw (sym table) (
            find-kept (at_process user terminal sig) test f t (λ r. refl)
              (λ r k. at_process-other e r user terminal sig a k))
      | inr free ↦
          let table : t ++ e ∷ [] ≡ u = ground arith in
          rw (sym table) (find-snoc_other (at_process user terminal sig) t e a)
    ]

-- An upsert leaves every other process at the task that it was at.
pub agent_execution_by_sig-other :
    (new_id : Text) (now : ℕ) (user : Text) (input out : AgentExecution) (t u : List AgentExecution)
    (other terminal sig : Text)
    → upsert_agent_execution new_id now user input t ≡ ok (out, u)
    → (text_eq (trim_space user) other
        && text_eq (trim_space input.terminal_id) (trim_space terminal)
        && text_eq (trim_space input.agent_sig) (trim_space sig))
      ≡ false
    → agent_execution_by_sig other terminal sig u ≡ agent_execution_by_sig other terminal sig t
unfolding agent_execution_by_sig
agent_execution_by_sig-other new_id now user input out t u other terminal sig h a =
    upsert_execution-other (given new_id now user input) t u other (trim_space terminal)
      (trim_space sig) (upsert_agent_execution-ok new_id now user input out t u h).0 a
