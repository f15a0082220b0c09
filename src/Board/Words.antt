-- ===== src/Board/Words.antt =====
-- The words of internal/server/project_control.go as enumerations, with the normalizers that read a
-- text and the text that each word stands for.
use roambench.Base.{◌≡◌, refl, Bool, Option, none, some, if◌then◌else◌, ◌||◌}
use roambench.Base.Text.{Text, codes, text_eq, trim_space, to_lower}

pub data TaskState : Type 0 where
  planned queued running waiting_review waiting_human blocked failed execution_complete archived
        cancelled :
      TaskState

pub data Acceptance : Type 0 where
  not_ready ready_for_acceptance under_human_review accepted rejected : Acceptance

pub data WorkstreamStatus : Type 0 where
  planned running blocked waiting_human failed completed archived : WorkstreamStatus

-- The empty id is `none` of an option.
pub data PhaseId : Type 0 where
  plan implement write test review fix_or_replan final_validation ready_for_acceptance : PhaseId

pub data RunbookState : Type 0 where
  not_started in_progress waiting_review needs_fix ready_for_acceptance accepted archived :
      RunbookState

-- The empty dispatch state is read as "none", `undispatched` here.
pub data DispatchState : Type 0 where
  undispatched awaiting_approval ready claimed released done : DispatchState

pub data AttemptStatus : Type 0 where
  running completed failed cancelled : AttemptStatus

pub data RunStatus : Type 0 where
  running waiting completed failed cancelled : RunStatus

pub data Outcome : Type 0 where
  pass fail recorded : Outcome

pub data CheckpointStatus : Type 0 where
  pending approved rejected rerouted expired : CheckpointStatus

-- `strings.TrimSpace(strings.ToLower(value))`.
unfoldable pub normal : Text → Text
normal value = trim_space (to_lower value)

-- The word that the code has for a state, where it compares texts; likewise the texts below.
abbrev pub state_text : TaskState → Text
state_text TaskState.planned = codes "planned"
state_text TaskState.queued = codes "queued"
state_text TaskState.running = codes "running"
state_text TaskState.waiting_review = codes "waiting_review"
state_text TaskState.waiting_human = codes "waiting_human"
state_text TaskState.blocked = codes "blocked"
state_text TaskState.failed = codes "failed"
state_text TaskState.execution_complete = codes "execution_complete"
state_text TaskState.archived = codes "archived"
state_text TaskState.cancelled = codes "cancelled"

-- `normalizeProjectControlTaskState`.
unfoldable pub normalize_task_state : Text → TaskState
unfolding normal
normalize_task_state value =
    let v = normal value in
    if text_eq v (codes "queued")
    then TaskState.queued
    else if text_eq v (codes "running")
    then TaskState.running
    else if text_eq v (codes "waiting_review")
    then TaskState.waiting_review
    else if text_eq v (codes "waiting_human")
    then TaskState.waiting_human
    else if text_eq v (codes "blocked")
    then TaskState.blocked
    else if text_eq v (codes "failed")
    then TaskState.failed
    else if text_eq v (codes "execution_complete")
    then TaskState.execution_complete
    else if text_eq v (codes "archived")
    then TaskState.archived
    else if text_eq v (codes "cancelled")
    then TaskState.cancelled
    else TaskState.planned

abbrev pub acceptance_text : Acceptance → Text
acceptance_text Acceptance.not_ready = codes "not_ready"
acceptance_text Acceptance.ready_for_acceptance = codes "ready_for_acceptance"
acceptance_text Acceptance.under_human_review = codes "under_human_review"
acceptance_text Acceptance.accepted = codes "accepted"
acceptance_text Acceptance.rejected = codes "rejected"

-- `normalizeProjectControlAcceptanceStatus`.
unfoldable pub normalize_acceptance : Text → Acceptance
unfolding normal
normalize_acceptance value =
    let v = normal value in
    if text_eq v (codes "ready_for_acceptance")
    then Acceptance.ready_for_acceptance
    else if text_eq v (codes "under_human_review")
    then Acceptance.under_human_review
    else if text_eq v (codes "accepted")
    then Acceptance.accepted
    else if text_eq v (codes "rejected")
    then Acceptance.rejected
    else Acceptance.not_ready

abbrev pub phase_text : PhaseId → Text
phase_text PhaseId.plan = codes "plan"
phase_text PhaseId.implement = codes "implement"
phase_text PhaseId.write = codes "write"
phase_text PhaseId.test = codes "test"
phase_text PhaseId.review = codes "review"
phase_text PhaseId.fix_or_replan = codes "fix_or_replan"
phase_text PhaseId.final_validation = codes "final_validation"
phase_text PhaseId.ready_for_acceptance = codes "ready_for_acceptance"

-- `normalizeProjectControlPhaseID`.
unfoldable pub normalize_phase_id : Text → Option PhaseId
unfolding normal
normalize_phase_id value =
    let v = normal value in
    if text_eq v (codes "plan")
    then some PhaseId.plan
    else if text_eq v (codes "implement")
    then some PhaseId.implement
    else if text_eq v (codes "write")
    then some PhaseId.write
    else if text_eq v (codes "test")
    then some PhaseId.test
    else if text_eq v (codes "review")
    then some PhaseId.review
    else if text_eq v (codes "fix_or_replan")
    then some PhaseId.fix_or_replan
    else if text_eq v (codes "final_validation")
    then some PhaseId.final_validation
    else if text_eq v (codes "ready_for_acceptance")
    then some PhaseId.ready_for_acceptance
    else none

-- `==` on phase ids.
unfoldable pub same_phase : PhaseId → PhaseId → Bool
same_phase p q = text_eq (phase_text p) (phase_text q)

-- `normalizeProjectControlArtifactOutcome`.
unfoldable pub normalize_outcome : Text → Outcome
unfolding normal
normalize_outcome value =
    let v = normal value in
    if text_eq v (codes "pass")
      || text_eq v (codes "passed")
      || text_eq v (codes "success")
      || text_eq v (codes "ok")
      || text_eq v (codes "clean")
      || text_eq v (codes "no_objection")
      || text_eq v (codes "approved")
    then Outcome.pass
    else if text_eq v (codes "fail")
        || text_eq v (codes "failed")
        || text_eq v (codes "error")
        || text_eq v (codes "blocked")
        || text_eq v (codes "objection")
        || text_eq v (codes "rejected")
    then Outcome.fail
    else Outcome.recorded

-- The text of an acceptance status is read as that status.
pub normalize_acceptance-acceptance_text :
    (a : Acceptance) → normalize_acceptance (acceptance_text a) ≡ a
unfolding normalize_acceptance normal trim_space to_lower text_eq
normalize_acceptance-acceptance_text Acceptance.not_ready = refl
normalize_acceptance-acceptance_text Acceptance.ready_for_acceptance = refl
normalize_acceptance-acceptance_text Acceptance.under_human_review = refl
normalize_acceptance-acceptance_text Acceptance.accepted = refl
normalize_acceptance-acceptance_text Acceptance.rejected = refl
