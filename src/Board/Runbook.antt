-- ===== src/Board/Runbook.antt =====
-- Skills and runbooks of internal/server/project_control.go: the tables that are built in, the choice
-- for a task, and the order of the phases. Names, versions and permissions by phase, which nothing
-- modelled reads, are left out.
pub mod Paths
pub mod Selection
use roambench.Base.{
  Bool, true, false, ◌&&◌, ◌||◌, not, Option, none, some, List, [], ◌∷◌, if◌then◌else◌, find, any,
}
use roambench.Base.Text.{Text, codes, text_eq, is_empty, trim_space}
use roambench.Board.{
  Task, Answer, granted, refused, unknown_skill, unknown_runbook, runbook_refused,
}
use roambench.Board.Words.{TaskState, Acceptance, PhaseId, RunbookState, normal, same_phase}

pub record Skill : Type 0 where
  pub id : Text
  pub default_runbook_id : Text
  pub allowed_runbook_ids : List Text
  pub required_artifacts : List Text

pub record RunbookPhase : Type 0 where
  pub id : PhaseId
  pub execution_role : Text
  pub scoped_write : Bool
  pub required_artifacts : List Text

pub record Runbook : Type 0 where
  pub id : Text
  pub skill : Text
  pub phases : List RunbookPhase
  pub completion_rules : List Text

abbrev pub phase_of : PhaseId → Text → Bool → Text → RunbookPhase
phase_of id role scoped artifact = record {
  id = id;
  execution_role = role;
  scoped_write = scoped;
  required_artifacts = artifact ∷ [];
}

abbrev pub code_change : Runbook
code_change = record {
  id = codes "code_change_default";
  skill = codes "code_change";
  phases =
      phase_of PhaseId.plan (codes "plan") false (codes "plan")
      ∷ phase_of PhaseId.implement (codes "implement") true (codes "diff_summary")
      ∷ phase_of PhaseId.test (codes "test") false (codes "test_result")
      ∷ phase_of PhaseId.review (codes "review") false (codes "review_result")
      ∷ phase_of PhaseId.fix_or_replan (codes "implement") true (codes "diff_summary")
      ∷ phase_of PhaseId.final_validation (codes "verify") false (codes "completion_check")
      ∷ [];
  completion_rules =
      codes "plan"
      ∷ codes "diff_summary"
      ∷ codes "test_result"
      ∷ codes "review_result"
      ∷ codes "completion_check"
      ∷ [];
}

abbrev pub docs_update : Runbook
docs_update = record {
  id = codes "docs_update_default";
  skill = codes "docs_update";
  phases =
      phase_of PhaseId.plan (codes "plan") false (codes "plan")
      ∷ phase_of PhaseId.write (codes "implement") true (codes "doc_summary")
      ∷ phase_of PhaseId.review (codes "review") false (codes "review_result")
      ∷ phase_of PhaseId.fix_or_replan (codes "implement") true (codes "doc_summary")
      ∷ phase_of PhaseId.final_validation (codes "verify") false (codes "completion_check")
      ∷ [];
  completion_rules =
      codes "plan" ∷ codes "doc_summary" ∷ codes "review_result" ∷ codes "completion_check" ∷ [];
}

-- `defaultProjectControlRunbooks`.
abbrev pub default_runbooks : List Runbook
default_runbooks = code_change ∷ docs_update ∷ []

abbrev pub code_skill : Skill
code_skill = record {
  id = codes "code_change";
  default_runbook_id = codes "code_change_default";
  allowed_runbook_ids = codes "code_change_default" ∷ [];
  required_artifacts = code_change.completion_rules;
}

abbrev pub docs_skill : Skill
docs_skill = record {
  id = codes "docs_update";
  default_runbook_id = codes "docs_update_default";
  allowed_runbook_ids = codes "docs_update_default" ∷ [];
  required_artifacts = docs_update.completion_rules;
}

-- `defaultProjectControlSkills`.
abbrev pub default_skills : List Skill
default_skills = code_skill ∷ docs_skill ∷ []

unfoldable pub find_skill : List Skill → Text → Option Skill
find_skill skills id = find (λ s. text_eq (normal s.id) (normal id)) skills

unfoldable pub find_runbook : List Runbook → Text → Option Runbook
find_runbook runbooks id = find (λ r. text_eq (normal r.id) (normal id)) runbooks

-- `projectControlSkillAllowsRunbook`.
unfoldable pub allows_runbook : Skill → Text → Bool
allows_runbook skill id =
    not (is_empty (normal id))
    && (text_eq (normal skill.default_runbook_id) (normal id)
        || any (λ allowed. text_eq (normal allowed) (normal id)) skill.allowed_runbook_ids)

abbrev pub suits : Skill → Runbook → Bool
suits skill runbook =
    text_eq (normal runbook.skill) (normal skill.id) && allows_runbook skill runbook.id

-- The skill that `projectControlResolveSkillAndRunbook` takes under a name.
unfoldable pub choose_skill : Text → Skill
unfolding find_skill
choose_skill id = elim (find_skill default_skills id) [ some skill ↦ skill | none ↦ code_skill ]

abbrev pub skill_for : Task → Skill
skill_for task = choose_skill task.selected_skill

-- The runbook by default of a skill.
unfoldable pub default_for : Skill → Runbook
unfolding find_runbook
default_for skill = elim (find_runbook default_runbooks skill.default_runbook_id) [
  | some runbook ↦ runbook
  | none ↦ code_change
]

-- The runbook that `projectControlResolveSkillAndRunbook` takes under a skill.
unfoldable pub choose_runbook : Skill → Text → Runbook
unfolding default_for find_runbook
choose_runbook skill id =
    let wanted = if is_empty (trim_space id) then skill.default_runbook_id else id in
    elim (find_runbook default_runbooks wanted) [
      | some runbook ↦ if suits skill runbook then runbook else default_for skill
      | none ↦ default_for skill
    ]

-- `projectControlRunbookForTask`.
unfoldable pub runbook_for : Task → Runbook
unfolding choose_skill choose_runbook
runbook_for task = choose_runbook (skill_for task) task.runbook_id

-- `validateProjectControlSkillRunbookSelection`.
unfoldable pub validate_selection : Text → Text → Answer (Skill × Runbook)
unfolding find_skill find_runbook
validate_selection selected id =
    let skill_id = if is_empty (normal selected) then codes "code_change" else normal selected in
    elim (find_skill default_skills skill_id) [
      | none ↦ refused unknown_skill
      | some skill ↦
          let wanted = if is_empty (normal id) then skill.default_runbook_id else normal id in
          elim (find_runbook default_runbooks wanted) [
            | none ↦ refused unknown_runbook
            | some runbook ↦
                if suits skill runbook then granted (skill, runbook) else refused runbook_refused
          ]
    ]

-- `findProjectControlRunbookPhase`.
unfoldable pub find_phase : Runbook → PhaseId → Option RunbookPhase
unfolding same_phase
find_phase runbook id = find (λ p. same_phase p.id id) runbook.phases

abbrev pub has_phase : Runbook → PhaseId → Bool
has_phase runbook id = elim (find_phase runbook id) [ some p ↦ true | none ↦ false ]

-- `isProjectControlRecoveryPhase`.
abbrev pub is_recovery : RunbookPhase → Bool
is_recovery p = same_phase p.id PhaseId.fix_or_replan

-- The first phase that is not for recovery, and ready_for_acceptance where there is none.
unfoldable pub first_main : List RunbookPhase → PhaseId
first_main [] = PhaseId.ready_for_acceptance
first_main (p ∷ ps) = if is_recovery p then first_main ps else p.id

-- What comes after the first phase that passes the test; `none` where no phase does.
unfoldable pub main_after : (RunbookPhase → Bool) → List RunbookPhase → Option PhaseId
unfolding first_main
main_after test [] = none
main_after test (p ∷ ps) = if test p then some (first_main ps) else main_after test ps

-- `projectControlRecoveryTargetPhaseID`.
unfoldable pub recovery_target : Runbook → Option PhaseId
unfolding main_after
recovery_target runbook =
    if has_phase runbook PhaseId.test
    then some PhaseId.test
    else if has_phase runbook PhaseId.review
    then some PhaseId.review
    else if has_phase runbook PhaseId.final_validation
    then some PhaseId.final_validation
    else main_after is_recovery runbook.phases

-- `nextProjectControlRunbookPhaseID`.
unfoldable pub next_phase : Runbook → PhaseId → Option PhaseId
unfolding recovery_target main_after
next_phase runbook PhaseId.ready_for_acceptance = none
next_phase runbook PhaseId.fix_or_replan = recovery_target runbook
next_phase runbook id = main_after (λ p. same_phase p.id id) runbook.phases

-- `inferProjectControlCurrentPhase`.
unfoldable pub infer_current_phase : Task → PhaseId
infer_current_phase task = elim task.current_phase [
  | some phase ↦ phase
  | none ↦ elim task.state [
    | TaskState.planned ↦ PhaseId.plan
    | TaskState.queued ↦ PhaseId.plan
    | TaskState.waiting_review ↦ PhaseId.review
    | TaskState.blocked ↦ PhaseId.fix_or_replan
    | TaskState.failed ↦ PhaseId.fix_or_replan
    | TaskState.execution_complete ↦ PhaseId.ready_for_acceptance
    | TaskState.archived ↦ PhaseId.ready_for_acceptance
    | _ ↦ PhaseId.implement
  ]
]

-- `inferProjectControlRunbookState`.
unfoldable pub infer_runbook_state : Task → RunbookState
infer_runbook_state task = elim task.runbook_state [
  | some state ↦ state
  | none ↦ elim task.state [
    | TaskState.planned ↦ RunbookState.not_started
    | TaskState.queued ↦ RunbookState.not_started
    | TaskState.waiting_review ↦ RunbookState.waiting_review
    | TaskState.blocked ↦ RunbookState.needs_fix
    | TaskState.failed ↦ RunbookState.needs_fix
    | TaskState.execution_complete ↦ elim task.acceptance_status [
      | Acceptance.accepted ↦ RunbookState.accepted
      | _ ↦ RunbookState.ready_for_acceptance
    ]
    | TaskState.archived ↦ RunbookState.archived
    | _ ↦ RunbookState.in_progress
  ]
]
