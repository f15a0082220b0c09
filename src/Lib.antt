-- ===== src/Lib.antt =====
-- RoamBench: a server that lets a person follow and steer coding agents in terminals from a phone.
--
-- This library models the parts of its Go code that decide who may work on a task, what was decided,
-- and what reaches the user:
--   * ControlPlane/Claims: the leases of internal/controlplane/claims.go. Runtimes claim a task, renew the
--     claim by heartbeats and release it; a sweep closes the stale ones. `ClaimTable` is the table
--     task_claims; `claim_ready_task` is ClaimReadyTask, `heartbeat_claim` HeartbeatClaim,
--     `release_claim` ReleaseClaim, `expire_stale_claims` ExpireStaleClaims and
--     ExpireStaleClaimsForUser, `revoke_task_claims` RevokeTaskClaims.
--   * ControlPlane/Db and ControlPlane/Interactions: requests for a human decision and their answers, of
--     internal/controlplane/repository.go. Db has the tables of its schema and the transactions;
--     Interactions has the shared statements, Create, Respond and Close the operations
--     (CreateInteraction, Respond, CancelInteractionIdempotent, ExpireDueInteractions,
--     CancelPendingInteractionsForSession). ControlPlane/Risk is internal/controlplane/risk.go.
--   * ControlPlane/Migration: ImportLegacyApprovals of internal/controlplane/migration.go, by which every save of
--     a board writes its checkpoints and decisions into the same tables; History has all their writers.
--   * ControlPlane/Progress and ControlPlane/Projections: the progress feed of a task, of
--     internal/controlplane/progress.go, and the marks on the projections that an answer asks for, of
--     internal/controlplane/projection.go (on the rows that `respond` inserts).
--   * ControlPlane/Handoff: the references between tasks and the tasks of agent processes, of
--     internal/controlplane/handoff.go (AddSourceRef, DeleteSourceRef, UpsertAgentExecution,
--     AgentExecutionBySig).
--   * Board: the project board of internal/server/project_control.go, project_lifecycle.go and
--     project_takeover.go. Board has the records of a state and `Answer`, a result or a refusal; Words the
--     enumerations and normalizers; Runbook and Evidence the runbooks and what they still miss; Phases
--     `start_phase`, `complete_phase` and `fail_phase` (startProjectControlTaskPhase and so on); Tools the
--     tools of a phase and their results; Checkpoints the synchronizations after a change; Decide
--     recordCheckpointDecision; Projected the decisions that were answered in the control plane
--     (applyTaskProjection of internal/server/task_projector.go), the path that a checkpoint takes which the
--     control plane knows; Contract validateTaskContract; Gate the entrance to execution, which
--     reads the leases of ControlPlane/Claims; Update updateTask; Traces sequences of both requests.
--   * Auth/Sessions: the signed-in browsers of internal/auth/session.go.
--   * Telegram/Mapping: which terminal a Telegram message is about, of internal/telegram/mapping.go.
--   * AgentProbe/Recommend: which agents are recommended for a task, of internal/agentprobe/recommend.go.
--   * Terminal/Osc: the scanner of internal/terminal/osc.go, which takes notifications out of what a
--     terminal prints.
-- Base has what they share; Base/Text is the part of package strings that they use. The modules
-- called Tests hold runs on concrete data, and instances of the theorems.
--
-- Conventions. A Go string is the list of its bytes: TrimSpace, comparison and the count of runes are
-- exact, and ToLower is exact as far as comparisons with ASCII words can tell. A time is a number
-- of nanoseconds since the zero time.Time; 0 is the zero time and NULL. The clock, the ids that newID draws
-- and the SHA-256 digest of a request's JSON are arguments of the operations, about which nothing is
-- assumed. A table of SQLite is the list of its rows in insertion order, and its unique keys are
-- tested by the inserts; a Go map is a function from keys to optional entries; a transaction that returns an error leaves the tables as they were. All
-- recursion is structural, on the data or on the rows of a query, but for the search for cycles in
-- Board/Contract, which runs on fuel, one more than there are tasks, and never uses it up.
--
-- Not modelled: faults of the database itself and cancelled contexts, the encodings of columns as JSON
-- and of times as text, the timeline events of the leases, the listing queries, and the rest of
-- the program (HTTP handlers, terminals and processes, the web client). Of the project board: its
-- event log, texts that are only displayed, the files it is kept in, projects and workstreams themselves, the
-- creation of tasks, and what withStateLocked does around the callback of a request: it loads the
-- approvals of the control plane before it, and after it pauses tasks where a takeover was violated
-- (applyTakeoverEvents), normalizes the state, saves it and revokes the claims of closed tasks; and what the board asks of the
-- file system and of terminals (a `Host` answers).
pub mod AgentProbe
pub mod Auth
pub mod Base
pub mod Board
pub mod ControlPlane
pub mod Telegram
pub mod Terminal
