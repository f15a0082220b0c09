-- ===== src/Board/Update/Rules.antt =====
-- What a request may ask of a task in internal/server/project_control.go: the moves between states and
-- between acceptance statuses, and what an action stands for.
use roambench.Base.{Bool, true, false, ◌||◌, if◌then◌else◌, ⊤}
use roambench.Base.Text.{text_eq}
use roambench.Board.{
  Answer, granted, refused, ◌>>=◌, decision_required, needs_completion, illegal_acceptance,
}
use roambench.Board.Words.{TaskState, Acceptance, WorkstreamStatus, state_text, acceptance_text}

-- `isAllowedProjectControlTaskTransition` between different states.
unfoldable pub can_move : TaskState → TaskState → Bool
can_move TaskState.planned to = elim to [
  | TaskState.queued ↦ true
  | TaskState.running ↦ true
  | TaskState.cancelled ↦ true
  | _ ↦ false
]
can_move TaskState.queued to = elim to [
  | TaskState.planned ↦ true
  | TaskState.running ↦ true
  | TaskState.cancelled ↦ true
  | _ ↦ false
]
can_move TaskState.running to = elim to [
  | TaskState.waiting_review ↦ true
  | TaskState.waiting_human ↦ true
  | TaskState.blocked ↦ true
  | TaskState.failed ↦ true
  | TaskState.execution_complete ↦ true
  | TaskState.cancelled ↦ true
  | _ ↦ false
]
can_move TaskState.cancelled to = elim to [ TaskState.running ↦ true | _ ↦ false ]
can_move TaskState.execution_complete to = elim to [
  | TaskState.archived ↦ true
  | TaskState.running ↦ true
  | TaskState.blocked ↦ true
  | _ ↦ false
]
can_move TaskState.archived to = elim to [ TaskState.planned ↦ true | _ ↦ false ]
can_move _ to = elim to [ TaskState.running ↦ true | TaskState.cancelled ↦ true | _ ↦ false ]

-- `isAllowedProjectControlTaskTransition`.
unfoldable pub may_move : TaskState → TaskState → Bool
unfolding can_move
may_move start to = text_eq (state_text start) (state_text to) || can_move start to

-- `isAllowedProjectControlWorkstreamTransition` between different statuses.
unfoldable pub can_move_workstream : WorkstreamStatus → WorkstreamStatus → Bool
can_move_workstream WorkstreamStatus.planned to = elim to [
  | WorkstreamStatus.running ↦ true
  | _ ↦ false
]
can_move_workstream WorkstreamStatus.running to = elim to [
  | WorkstreamStatus.blocked ↦ true
  | WorkstreamStatus.waiting_human ↦ true
  | WorkstreamStatus.failed ↦ true
  | WorkstreamStatus.completed ↦ true
  | _ ↦ false
]
can_move_workstream WorkstreamStatus.completed to = elim to [
  | WorkstreamStatus.archived ↦ true
  | _ ↦ false
]
can_move_workstream WorkstreamStatus.archived to = false
can_move_workstream _ to = elim to [ WorkstreamStatus.running ↦ true | _ ↦ false ]

abbrev is_complete : TaskState → Bool
is_complete TaskState.execution_complete = true
is_complete _ = false

abbrev needs_complete : TaskState → Answer ⊤
needs_complete state = if is_complete state then granted tt else refused needs_completion

-- The last switch of `validateProjectControlAcceptanceTransition`.
unfoldable pub accept_step : Acceptance → Acceptance → Answer ⊤
accept_step Acceptance.not_ready to = elim to [
  | Acceptance.ready_for_acceptance ↦ granted tt
  | _ ↦ refused illegal_acceptance
]
accept_step Acceptance.ready_for_acceptance to = elim to [
  | Acceptance.not_ready ↦ granted tt
  | Acceptance.under_human_review ↦ granted tt
  | _ ↦ refused illegal_acceptance
]
accept_step Acceptance.under_human_review to = elim to [
  | Acceptance.not_ready ↦ granted tt
  | _ ↦ refused illegal_acceptance
]
accept_step Acceptance.rejected to = elim to [
  | Acceptance.not_ready ↦ granted tt
  | _ ↦ refused illegal_acceptance
]
accept_step Acceptance.accepted to = refused illegal_acceptance

-- `validateProjectControlAcceptanceTransition`. The flag that admits the statuses of a decision is
-- off wherever it is called.
unfoldable pub validate_acceptance : Acceptance → Acceptance → TaskState → Answer ⊤
unfolding accept_step
validate_acceptance start to state =
    if text_eq (acceptance_text start) (acceptance_text to) then granted tt else elim to [
      | Acceptance.accepted ↦ refused decision_required
      | Acceptance.rejected ↦ refused decision_required
      | Acceptance.not_ready ↦ accept_step start Acceptance.not_ready
      | Acceptance.ready_for_acceptance ↦
          needs_complete state >>= λ _. accept_step start Acceptance.ready_for_acceptance
      | Acceptance.under_human_review ↦
          needs_complete state >>= λ _. accept_step start Acceptance.under_human_review
    ]
