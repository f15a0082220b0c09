-- ===== src/ControlPlane/Handoff.antt =====
-- Where a task came from and which task an agent process works on: the tables task_source_refs and
-- terminal_agent_executions, with the operations of internal/controlplane/handoff.go on them. The
-- clock and the id that is drawn are arguments. Copies and pending handoffs are left out.
pub mod Refs
pub mod Executions
mod Tests
use roambench.Base.{
  ℕ, Bool, ◌&&◌, ◌||◌, not, Option, none, some, List, [], map, any, find, filter, count, ◌==◌,
  if◌then◌else◌,
}
use roambench.Base.Text.{Text, codes, text_eq, is_empty, trim_space}
use roambench.ControlPlane.Errors.{Result, ok, err, validation, storage}
use roambench.ControlPlane.Db.{insert_row}

-- SourceRef, a row of `task_source_refs`.
pub record SourceRef : Type 0 where
  pub id : Text
  pub username : Text
  pub target_task_id : Text
  pub source_task_id : Text
  pub relation : Text
  pub snapshot : Text
  pub source_terminal : Text
  pub target_terminal : Text
  pub copy_id : Text
  pub created_at : ℕ

-- The pair that is unique.
abbrev pub same_pair : SourceRef → SourceRef → Bool
same_pair a b =
    text_eq a.username b.username
    && text_eq a.target_task_id b.target_task_id
    && text_eq a.source_task_id b.source_task_id
    && text_eq a.relation b.relation

-- The primary key and the unique index.
abbrev pub ref_clash : SourceRef → SourceRef → Bool
ref_clash a b = text_eq a.id b.id || same_pair a b

-- The reference as `AddSourceRef` goes on with it.
unfoldable pub cleaned : Text → SourceRef → SourceRef
cleaned user ref = record ref {
  username = user;
  relation =
      if is_empty (trim_space ref.relation) then codes "reviews" else trim_space ref.relation;
  source_task_id = trim_space ref.source_task_id;
  target_task_id = trim_space ref.target_task_id;
}

-- The SET of the update.
abbrev pub refreshed : ℕ → SourceRef → SourceRef → SourceRef
refreshed now ref old = record old {
  snapshot = ref.snapshot;
  source_terminal = ref.source_terminal;
  target_terminal = ref.target_terminal;
  copy_id = ref.copy_id;
  created_at = now;
}

-- The pair is there already: its row takes on a new snapshot.
unfoldable pub repeat_ref : ℕ → SourceRef → SourceRef → List SourceRef → SourceRef × List SourceRef
repeat_ref now ref old t =
    if not (is_empty (trim_space ref.snapshot)) && not (text_eq ref.snapshot old.snapshot)
    then (
      record ref { id = old.id; created_at = now },
      map (λ r. if text_eq r.id old.id then refreshed now ref r else r) t,
    )
    else (record ref { id = old.id; created_at = old.created_at }, t)

-- `AddSourceRef`.
unfoldable pub add_source_ref :
    Text → ℕ → Text → SourceRef → List SourceRef → Result (SourceRef × List SourceRef)
add_source_ref new_id now user input t =
    let ref = cleaned user input in
    let fresh : SourceRef = record ref { id = new_id; created_at = now } in
    if is_empty ref.target_task_id || is_empty ref.source_task_id
    then err validation
    else if text_eq ref.target_task_id ref.source_task_id
    then err validation
    else elim (find (same_pair ref) t) [
      | some old ↦ ok (repeat_ref now ref old t)
      | none ↦ elim (insert_row ref_clash storage fresh t) [
        | err e ↦ err e
        | ok t' ↦ ok (fresh, t')
      ]
    ]

-- `DeleteSourceRef`.
unfoldable pub delete_source_ref : Text → Text → List SourceRef → Bool × List SourceRef
delete_source_ref user ref t =
    let test = λ (r : SourceRef). text_eq r.username user && text_eq r.id ref in
    (count test t == 1, filter (λ r. not (test r)) t)

-- AgentExecution, a row of `terminal_agent_executions`.
pub record AgentExecution : Type 0 where
  pub id : Text
  pub username : Text
  pub terminal_id : Text
  pub agent_sig : Text
  pub agent_name : Text
  pub task_id : Text
  pub created_at : ℕ

-- The unique index.
abbrev pub at_process : Text → Text → Text → AgentExecution → Bool
at_process user terminal sig e =
    text_eq e.username user && text_eq e.terminal_id terminal && text_eq e.agent_sig sig

-- The upsert of `UpsertAgentExecution`. Where the process has a row the drawn id is not used; otherwise a
-- clash of that id is an error.
unfoldable pub upsert_execution :
    AgentExecution → List AgentExecution → Result (List AgentExecution)
upsert_execution e t =
    let test = at_process e.username e.terminal_id e.agent_sig in
    if any test t
    then ok (
        map
          (λ x.
            if test x
            then record x {
              task_id = e.task_id;
              agent_name = e.agent_name;
              created_at = e.created_at;
            }
            else x)
          t)
    else insert_row (λ a b. text_eq a.id b.id) storage e t

-- `AgentExecutionBySig`.
unfoldable pub agent_execution_by_sig :
    Text → Text → Text → List AgentExecution → Option AgentExecution
agent_execution_by_sig user terminal sig t =
    find (at_process user (trim_space terminal) (trim_space sig)) t

-- `UpsertAgentExecution`: the row that is read back, and the table.
unfoldable pub upsert_agent_execution :
    Text
    → ℕ
    → Text
    → AgentExecution
    → List AgentExecution
    → Result (AgentExecution × List AgentExecution)
upsert_agent_execution new_id now user input t =
    let e : AgentExecution = record input {
      id = new_id;
      username = trim_space user;
      terminal_id = trim_space input.terminal_id;
      agent_sig = trim_space input.agent_sig;
      created_at = now;
    } in
    if is_empty e.username || is_empty e.terminal_id || is_empty e.agent_sig
    then err validation
    else elim (upsert_execution e t) [
      | err x ↦ err x
      | ok t' ↦ elim (find (at_process e.username e.terminal_id e.agent_sig) t') [
        | none ↦ err storage
        | some out ↦ ok (out, t')
      ]
    ]
