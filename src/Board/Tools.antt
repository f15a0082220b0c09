-- ===== src/Board/Tools.antt =====
-- Tools of a phase in internal/server/project_control.go: which may run, what a start records, and what a
-- result does to the phase. Running one is outside. `projectControlExecuteTool` gives the result.
pub mod Results
use roambench.Base.{
  ℕ, ◌+◌, Bool, true, false, ◌&&◌, ◌||◌, not, Option, none, some, List, [], ◌∷◌, ◌++◌,
  if◌then◌else◌, find, any, ⊤, length,
}
use roambench.Base.Text.{Text, codes, text_eq, is_empty, trim_space}
use roambench.Board.{
  Task, PhaseAttempt, Artifact, ToolRun, ToolDef, Board, TaskUpdate, Answer, granted, refused,
  ◌>>=◌, ◌>>◌, no_running_attempt, invalid_tool, no_workspace, tool_refused, tool_running,
  no_artifact_kind, unknown_phase,
}
use roambench.Board.Words.{
  PhaseId, RunStatus, Outcome, normal, normalize_phase_id, normalize_outcome, same_phase,
  phase_text,
}
use roambench.Board.Runbook.{RunbookPhase, runbook_for, find_phase}
use roambench.Board.Evidence.{outcome_passes, still_missing, refresh}
use roambench.Board.Phases.{Host, runs, find_last, update_last, guard, or_refuse}
use roambench.Board.Phases.Workspace.{workspace_kind, parse_workspace_ref}
use roambench.Board.Phases.Steps.{
  requested_phase, find_requested, new_artifact, with_artifact, attach, complete_phase, fail_phase,
}

abbrev all_phases : List Text
all_phases =
    codes "plan"
    ∷ codes "implement"
    ∷ codes "write"
    ∷ codes "test"
    ∷ codes "review"
    ∷ codes "fix_or_replan"
    ∷ codes "final_validation"
    ∷ []

-- `defaultProjectControlTools`.
abbrev pub default_tools : List ToolDef
default_tools =
    record {
      id = codes "repo_status";
      kind = [];
      artifact_kind = codes "repo_status";
      allowed_phases = all_phases;
      max_retries = 0;
    }
    ∷ record {
      id = codes "diff_capture";
      kind = [];
      artifact_kind = codes "diff_summary";
      allowed_phases =
          codes "implement"
          ∷ codes "write"
          ∷ codes "fix_or_replan"
          ∷ codes "review"
          ∷ codes "final_validation"
          ∷ [];
      max_retries = 0;
    }
    ∷ record {
      id = codes "go_test";
      kind = [];
      artifact_kind = codes "test_result";
      allowed_phases = codes "test" ∷ codes "final_validation" ∷ [];
      max_retries = 1;
    }
    ∷ []

-- `projectControlToolsForState`.
unfoldable pub tools_for : Board → List ToolDef
tools_for board = elim board.tools [ [] ↦ default_tools | t ∷ ts ↦ t ∷ ts ]

-- `isAgent`.
unfoldable pub is_agent : ToolDef → Bool
unfolding normal
is_agent def = text_eq (normal def.kind) (codes "agent")

-- `findProjectControlToolDef`.
unfoldable pub find_tool : List ToolDef → Text → Option ToolDef
unfolding normal
find_tool tools id = find (λ def. text_eq (normal def.id) (normal id)) tools

abbrev is_phase : PhaseId → Text → Bool
is_phase phase name = elim (normalize_phase_id name) [ some p ↦ same_phase p phase | none ↦ false ]

-- `len(def.AllowedPhases) == 0`, or one of them is the phase.
unfoldable pub phase_listed : PhaseId → ToolDef → Bool
unfolding normalize_phase_id same_phase
phase_listed phase def = elim def.allowed_phases [
  | [] ↦ true
  | name ∷ names ↦ any (is_phase phase) (name ∷ names)
]

-- `projectControlToolAllowedInPhase`.
unfoldable pub tool_allowed : Text → PhaseId → List ToolDef → Bool
unfolding normal find_tool phase_listed
tool_allowed id phase tools =
    not (is_empty (normal id))
    && elim (find_tool tools (normal id)) [ none ↦ false | some def ↦ phase_listed phase def ]

-- `projectControlToolForPhase`; a tool that lists no phases is never taken.
unfoldable pub tool_for_phase : List ToolDef → RunbookPhase → Option ToolDef
unfolding normal normalize_phase_id same_phase
tool_for_phase tools phase = elim phase.required_artifacts [
  | [] ↦ none
  | target ∷ _ ↦
      find
        (λ def.
          text_eq (normal def.artifact_kind) (normal target)
          && any (is_phase phase.id) def.allowed_phases)
        tools
]

-- The last test of `validateProjectControlToolForPhase`, which depends on the tool.
unfoldable pub tool_fits : Text → RunbookPhase → PhaseAttempt → Bool
tool_fits id phase attempt =
    if text_eq id (codes "diff_capture")
    then phase.scoped_write
    else if text_eq id (codes "go_test") || text_eq id (codes "repo_status")
    then not (is_empty attempt.workspace_ref)
    else true

-- `validateProjectControlToolForPhase`.
unfoldable pub validate_tool :
    (Text → Text) → Text → RunbookPhase → PhaseAttempt → List ToolDef → Answer ⊤
unfolding normal tool_allowed parse_workspace_ref workspace_kind tool_fits
validate_tool clean id phase attempt tools =
    let actual = (parse_workspace_ref clean attempt.workspace_ref).0 in
    if not (tool_allowed (normal id) phase.id tools)
    then refused tool_refused
    else if not (is_empty actual) && not (text_eq actual (workspace_kind phase))
    then refused tool_refused
    else guard (tool_fits (normal id) phase attempt) tool_refused

abbrev is_live : RunStatus → Bool
is_live RunStatus.running = true
is_live _ = false

-- The test of `findRunningProjectControlToolRunIndex`, where no tool is named.
abbrev pub runs_tool : Text → Text → ToolRun → Bool
runs_tool task_id attempt_id r =
    text_eq r.task_id task_id && text_eq r.phase_attempt_id attempt_id && is_live r.status

module _ (host : Host) where
  unfoldable pub new_run : Task → PhaseAttempt → PhaseId → Text → List ToolDef → ToolRun
  unfolding find_tool is_agent
  new_run task attempt phase tool tools = record {
    id = host.new_id (codes "tool-run") (task.id ++ b'-' ∷ phase_text phase ++ b'-' ∷ tool);
    task_id = task.id;
    phase_attempt_id = attempt.id;
    phase_id = phase;
    tool_id = tool;
    workspace_ref = attempt.workspace_ref;
    status = elim (find_tool tools tool) [
      | some def ↦ if is_agent def then RunStatus.waiting else RunStatus.running
      | none ↦ RunStatus.running
    ];
    artifact_id = [];
    outcome = none;
    max_retries = elim (find_tool tools tool) [ some def ↦ def.max_retries | none ↦ 0 ];
  }

  -- `startProjectControlTaskPhaseTool`.
  unfoldable pub start_tool : Text → Text → Task → Board → Answer (Task × Board)
  unfolding normal normalize_phase_id refresh runbook_for find_phase find_last runs validate_tool
      tools_for new_run
  start_tool requested tool task board = do
    let t = refresh board.artifacts task
    phase ← find_requested (requested_phase requested t) t
    attempt ← or_refuse (find_last (runs t.id phase.id) board.attempts) no_running_attempt
    guard (not (is_empty (normal tool))) invalid_tool
    guard (not (is_empty (trim_space attempt.workspace_ref))) no_workspace
    validate_tool host.clean (normal tool) phase attempt (tools_for board)
    guard (not (any (runs_tool t.id attempt.id) board.tool_runs)) tool_running
    granted (
      t,
      record board {
        tool_runs =
            board.tool_runs ++ new_run t attempt phase.id (normal tool) (tools_for board) ∷ [];
      },
    )
