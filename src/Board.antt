-- ===== src/Board.antt =====
-- The project board: the state of internal/server/project_control.go and what a request does to it.
-- The words of a state, of an acceptance status and so on are enumerations (Words); a field that is
-- read again from a file is normalized first, so no other text stands in it. Ids, the time, the
-- directory of a workspace and the session of a terminal are arguments. Fields that are only
-- displayed are left out: titles, summaries, next steps, labels, the time stamps and the event log.
pub mod Words
pub mod Runbook
pub mod Evidence
pub mod Phases
pub mod Checkpoints
pub mod Decide
pub mod Projected
pub mod Tools
pub mod Contract
pub mod Gate
pub mod Update
pub mod Traces
mod Tests
use roambench.Base.{arith, ℕ, Bool, Option, List, ◌≡◌, ◌⊎◌, inl, inr, refl}
use roambench.Base.Text.{Text}
use roambench.Board.Words.{
  TaskState, Acceptance, PhaseId, RunbookState, DispatchState, AttemptStatus, RunStatus, Outcome,
  CheckpointStatus,
}

pub record Task : Type 0 where
  pub id : Text
  pub project_id : Text
  pub milestone_id : Text
  pub depends_on : List Text
  pub acceptance_command : List Text
  pub acceptance_baseline : Text
  pub acceptance_passed : Bool
  pub state : TaskState
  pub acceptance_status : Acceptance
  pub acceptance_decision_id : Text
  pub archive_decision_id : Text
  pub origin : Text
  pub dispatch_state : DispatchState
  pub risk_level : Text
  pub priority : Text
  pub selected_skill : Text
  pub runbook_id : Text
  pub current_phase : Option PhaseId
  pub runbook_state : Option RunbookState
  pub pause_reason : Text
  pub missing_evidence : List Text
  pub session_ids : List Text
  pub evidence : List (Text × Text)
  pub diff_summary : Text
  pub row_version : ℕ

-- What is read of `projectControlProject`: its milestones by id, its takeover and its lifecycle.
pub record Project : Type 0 where
  pub id : Text
  pub milestones : List Text
  pub takeover_mode : Text
  pub lifecycle_state : Text
  pub lifecycle_milestone_id : Text

pub record PhaseAttempt : Type 0 where
  pub id : Text
  pub task_id : Text
  pub phase_id : PhaseId
  pub session_id : Text
  pub agent_type : Text
  pub workspace_ref : Text
  pub status : AttemptStatus
  pub artifact_ids : List Text
  pub failure_reason : Text

pub record Artifact : Type 0 where
  pub id : Text
  pub task_id : Text
  pub phase_attempt_id : Text
  pub kind : Text
  pub outcome : Outcome
  pub label : Text
  pub value : Text

pub record ToolRun : Type 0 where
  pub id : Text
  pub task_id : Text
  pub phase_attempt_id : Text
  pub phase_id : PhaseId
  pub tool_id : Text
  pub workspace_ref : Text
  pub status : RunStatus
  pub artifact_id : Text
  pub outcome : Option Outcome
  pub max_retries : ℕ

pub record Checkpoint : Type 0 where
  pub id : Text
  pub task_id : Text
  pub kind : Text
  pub status : CheckpointStatus
  pub resolved_by_decision_id : Text
  pub allowed_actions : List Text
  pub row_version : ℕ

pub record Decision : Type 0 where
  pub id : Text
  pub decision_type : Text
  pub task_id : Text
  pub checkpoint_id : Text

-- `projectControlToolDef`; the command, its timeout and the bound of its output are left out.
pub record ToolDef : Type 0 where
  pub id : Text
  pub kind : Text
  pub artifact_kind : Text
  pub allowed_phases : List Text
  pub max_retries : ℕ

-- `projectControlState`. An empty list of tools stands for the tools that are built in.
pub record Board : Type 0 where
  pub projects : List Project
  pub tasks : List Task
  pub tools : List ToolDef
  pub attempts : List PhaseAttempt
  pub tool_runs : List ToolRun
  pub artifacts : List Artifact
  pub checkpoints : List Checkpoint
  pub decisions : List Decision

-- `projectControlTaskUpdateRequest`. The expected version -1, by which an agent passes the test, is
-- `agent_bypass`; other versions below 1 are 0. The flag ClearPauseReason is read off the action.
pub record TaskUpdate : Type 0 where
  pub lease_id : Text
  pub milestone_id : Option Text
  pub depends_on : Option (List Text)
  pub acceptance_command : Option (List Text)
  pub agent_bypass : Bool
  pub expected_row_version : ℕ
  pub action : Text
  pub priority : Text
  pub risk_level : Text
  pub state : Text
  pub acceptance_status : Text
  pub phase_id : Text
  pub artifact_kind : Text
  pub artifact_outcome : Text
  pub artifact_label : Text
  pub artifact_value : Text
  pub failure_reason : Text
  pub tool_id : Text

-- Why a request is refused, one constructor per kind of message.
pub data Refusal : Type 0 where
  version_required version_conflict task_not_found direct_state invalid_action illegal_transition
        not_accepted decision_required needs_completion illegal_acceptance missing_rules
        override_refused override_pending invalid_phase unknown_phase archived_task accepted_task
        already_ready wrong_phase phase_running no_running_attempt artifact_required
        artifact_refused outcome_refused no_next_phase invalid_tool no_workspace tool_refused
        tool_running no_artifact_kind checkpoint_not_found checkpoint_closed action_refused
        unknown_skill unknown_runbook runbook_refused shared_directory outside cyclic_dependencies
        foreign_dependency foreign_milestone blank_command executing_contract execution_paused
        lease_required unsupported_action request_not_found :
      Refusal

-- A result or a refusal. A refused request is not saved, so it comes with no new board.
pub data Answer {ℓ} (A : Type ℓ) : Type ℓ where
  granted : A → Answer A
  refused : Refusal → Answer A

infixl 5 ◌>>=◌ ◌>>◌
abbrev pub ◌>>=◌ {ℓ κ} : {A : Type ℓ} {B : Type κ} → Answer A → (A → Answer B) → Answer B
granted a >>= f = f a
refused e >>= f = refused e

abbrev pub ◌>>◌ {ℓ κ} : {A : Type ℓ} {B : Type κ} → Answer A → Answer B → Answer B
m >> k = m >>= λ _. k

pub Answer-cases {ℓ} :
    {A : Type ℓ} (r : Answer A) → ((a : A) × (r ≡ granted a)) ⊎ ((e : Refusal) × (r ≡ refused e))
Answer-cases (granted a) = inl (a, refl)
Answer-cases (refused e) = inr (e, refl)

-- What a chain of checks that is granted has passed.
pub bind-granted {ℓ κ} :
    {A : Type ℓ} {B : Type κ} (m : Answer A) (f : A → Answer B) (b : B)
    → (m >>= f) ≡ granted b
    → (a : A) × (m ≡ granted a) × (f a ≡ granted b)
bind-granted (granted a) f b e = (a, refl, e)
bind-granted (refused r) f b e = absurd (ground arith)

pub granted-injective {ℓ} : {A : Type ℓ} (a b : A) → granted a ≡ granted b → a ≡ b
granted-injective a b e = ground arith
