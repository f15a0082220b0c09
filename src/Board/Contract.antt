-- ===== src/Board/Contract.antt =====
-- The contract of a task: `validateTaskContract` and `taskDependenciesPassed` of
-- internal/server/project_lifecycle.go. The search through the dependencies carries the tasks on the
-- way to the one at hand, as the map `visiting` does, and runs on fuel.
pub mod Depth
pub mod Acyclic
use roambench.Base.{
  ℕ, zero, suc, Bool, true, false, ◌&&◌, ◌||◌, not, Option, none, some, List, [], ◌∷◌,
  if◌then◌else◌, find, length, ⊤,
}
use roambench.Base.Text.{Text, text_eq, is_empty, trim_space, contains}
use roambench.Board.{
  Task, Project, Board, Answer, granted, refused, ◌>>=◌, ◌>>◌, cyclic_dependencies,
  foreign_dependency, foreign_milestone, blank_command, outside,
}
use roambench.Board.Words.{DispatchState}
use roambench.Board.Phases.{guard}

-- `controlTask`.
unfoldable pub find_task : List Task → Text → Option Task
find_task tasks id = find (λ t. text_eq t.id id) tasks

-- `controlProject`.
unfoldable pub find_project : Board → Text → Option Project
find_project board id = find (λ p. text_eq p.id id) board.projects

module _ (tasks : List Task) (project : Text) where
  -- `visit` on a list of ids, each visited with the tasks on the way to it. `none` is to run out of
  -- fuel, which one more than the number of tasks prevents.
  unfoldable pub visit_all : ℕ → List Text → List Text → Option (Answer ⊤)
  unfolding find_task
  visit_all fuel way [] = some (granted tt)
  visit_all zero way (id ∷ ids) = none
  visit_all (suc fuel) way (id ∷ ids) =
      if contains way id then some (refused cyclic_dependencies) else elim (find_task tasks id) [
        | none ↦ some (refused foreign_dependency)
        | some dep ↦
            if not (text_eq dep.project_id project)
            then some (refused foreign_dependency)
            else elim (visit_all fuel (id ∷ way) dep.depends_on) [
              | none ↦ none
              | some (refused e) ↦ some (refused e)
              | some (granted _) ↦ visit_all (suc fuel) way ids
            ]
      ]

unfoldable pub check_command : Task → Answer ⊤
check_command task = elim task.acceptance_command [
  | [] ↦ granted tt
  | executable ∷ _ ↦ guard (not (is_empty (trim_space executable))) blank_command
]

unfoldable pub check_milestone : Board → Task → Answer ⊤
unfolding find_project contains
check_milestone board task = elim (find_project board task.project_id) [
  | none ↦ guard (is_empty task.milestone_id) foreign_milestone
  | some p ↦
      guard (is_empty task.milestone_id || contains p.milestones task.milestone_id)
        foreign_milestone
]

-- The search that `validateTaskContract` makes; it does not run out of fuel.
unfoldable pub check_dependencies : Board → Task → Option (Answer ⊤)
unfolding visit_all
check_dependencies board task =
    visit_all board.tasks task.project_id (suc (length board.tasks)) (task.id ∷ []) task.depends_on

-- `validateTaskContract`, on the board that does not hold the changed task yet.
unfoldable pub validate_contract : Board → Task → Answer ⊤
unfolding check_command check_milestone check_dependencies
validate_contract board task = do
  check_command task
  check_milestone board task
  elim (check_dependencies board task) [ none ↦ refused outside | some answer ↦ answer ]

abbrev is_done : DispatchState → Bool
is_done DispatchState.done = true
is_done _ = false

abbrev pub has_command : Task → Bool
has_command task = elim task.acceptance_command [ [] ↦ false | _ ∷ _ ↦ true ]

-- What a dependency has to have reached.
unfoldable pub dependency_passed : Task → Bool
dependency_passed dep =
    is_empty dep.pause_reason
    && is_done dep.dispatch_state
    && (not (has_command dep) || dep.acceptance_passed)

-- `taskDependenciesPassed`.
unfoldable pub dependencies_passed : List Task → List Text → Bool
unfolding find_task dependency_passed
dependencies_passed tasks [] = true
dependencies_passed tasks (id ∷ ids) = elim (find_task tasks id) [
  | none ↦ false
  | some dep ↦ dependency_passed dep && dependencies_passed tasks ids
]
