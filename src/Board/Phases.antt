-- ===== src/Board/Phases.antt =====
-- The phases of a runbook in internal/server/project_control.go: starting, completing and failing one,
-- and recording its artifact. What is not decided there comes with a `Host`. A function takes the
-- task apart from the board, as the code does, and the caller puts it back.
pub mod Workspace
pub mod Steps
pub mod Inversion
pub mod Readiness
use roambench.Base.{
  Bool, true, false, ◌&&◌, ◌||◌, not, Option, none, some, List, [], ◌∷◌, ◌++◌, if◌then◌else◌, any,
  find, ⊤,
}
use roambench.Base.Text.{Text, codes, text_eq, is_empty, trim_space, to_lower, has_prefix, contains}
use roambench.Board.{
  Task, PhaseAttempt, Artifact, Board, TaskUpdate, Refusal, Answer, granted, refused, ◌>>=◌, ◌>>◌,
  invalid_phase, unknown_phase, archived_task, accepted_task, already_ready, wrong_phase,
  phase_running, no_running_attempt, artifact_required, artifact_refused, outcome_refused,
  missing_rules, no_next_phase, shared_directory,
}
use roambench.Board.Words.{
  TaskState, Acceptance, PhaseId, RunbookState, DispatchState, AttemptStatus, Outcome, normal,
  normalize_phase_id, normalize_outcome, same_phase, phase_text,
}
use roambench.Board.Runbook.{
  Runbook, RunbookPhase, runbook_for, find_phase, next_phase, infer_current_phase,
}
use roambench.Board.Evidence.{
  kind_allowed, outcome_passes, missing_evidence, still_missing, refresh,
}

-- What a request finds outside: the id drawn for a kind and a seed (a request draws no pair twice),
-- the directory for a phase attempt, the session opened in it, and `filepath.Clean`.
pub record Host : Type 0 where
  pub new_id : Text → Text → Text
  pub prepare : Task → RunbookPhase → Text → Answer Text
  pub open_session : Task → RunbookPhase → Text → Answer Text
  pub clean : Text → Text

-- `appendUniqueString`.
unfoldable pub append_unique : List Text → Text → List Text
append_unique items value = if contains items value then items else items ++ value ∷ []

-- `projectControlPhaseAgentType`.
unfoldable pub agent_type : RunbookPhase → Text
agent_type phase =
    if text_eq phase.execution_role (codes "review")
    then codes "reviewer"
    else if text_eq phase.execution_role (codes "verify")
    then codes "verifier"
    else if text_eq phase.execution_role (codes "test")
    then codes "tester"
    else codes "worker"

-- `projectControlTaskStateForPhase`.
unfoldable pub state_for_phase : PhaseId → TaskState
state_for_phase PhaseId.review = TaskState.waiting_review
state_for_phase _ = TaskState.running

-- `writable` of `sharedDirectoryConflict`, on the text of a phase.
unfoldable pub is_writable : Text → Bool
is_writable phase = not (text_eq phase (codes "review") || text_eq phase (codes "final_validation"))

abbrev pub current_text : Task → Text
current_text task = elim task.current_phase [ some p ↦ phase_text p | none ↦ [] ]

abbrev pub is_claimed : DispatchState → Bool
is_claimed DispatchState.claimed = true
is_claimed _ = false

-- `sharedDirectoryConflict`, for the task as it would be in the phase of this text.
unfoldable pub shared_directory_conflict : Board → Task → Text → Bool
unfolding is_writable
shared_directory_conflict board task phase =
    is_writable phase
    && any
        (λ other.
          not (text_eq other.id task.id)
          && text_eq other.project_id task.project_id
          && is_claimed other.dispatch_state
          && is_writable (current_text other))
        board.tasks

-- `managedProject`.
unfoldable pub is_managed : Board → Task → Bool
is_managed board task = elim (find (λ p. text_eq p.id task.project_id) board.projects) [
  | none ↦ false
  | some p ↦ not (is_empty p.takeover_mode)
]

abbrev pub is_running : AttemptStatus → Bool
is_running AttemptStatus.running = true
is_running _ = false

unfoldable pub runs : Text → PhaseId → PhaseAttempt → Bool
unfolding same_phase
runs task_id phase a =
    text_eq a.task_id task_id && same_phase a.phase_id phase && is_running a.status

module _ {ℓ} {A : Type ℓ} where
  -- The last element that passes the test.
  unfoldable pub find_last : (A → Bool) → List A → Option A
  find_last p [] = none
  find_last p (x ∷ xs) = elim (find_last p xs) [
    | some y ↦ some y
    | none ↦ if p x then some x else none
  ]

  -- An update of the last element that passes the test.
  unfoldable pub update_last : (A → Bool) → (A → A) → List A → List A
  update_last p f [] = []
  update_last p f (x ∷ xs) =
      if any p xs then x ∷ update_last p f xs else if p x then f x ∷ xs else x ∷ xs

abbrev pub guard : Bool → Refusal → Answer ⊤
guard holds e = if holds then granted tt else refused e

abbrev pub or_refuse {ℓ} : {A : Type ℓ} → Option A → Refusal → Answer A
or_refuse none e = refused e
or_refuse (some a) e = granted a

-- `projectControlCanStartPhase`.
unfoldable pub can_start_phase : Task → Option PhaseId → Runbook → Answer RunbookPhase
unfolding find_phase infer_current_phase same_phase
can_start_phase task requested runbook = elim requested [
  | none ↦ refused invalid_phase
  | some PhaseId.ready_for_acceptance ↦ refused invalid_phase
  | some id ↦ elim (find_phase runbook id) [
    | none ↦ refused unknown_phase
    | some phase ↦ elim task.state [
      | TaskState.archived ↦ refused archived_task
      | _ ↦ elim task.acceptance_status [
        | Acceptance.accepted ↦ refused accepted_task
        | _ ↦
            if same_phase (infer_current_phase task) PhaseId.ready_for_acceptance
            then refused already_ready
            else if same_phase id (infer_current_phase task)
            then granted phase
            else refused wrong_phase
      ]
    ]
  ]
]
