-- ===== src/Board/Runbook/Selection.antt =====
-- The choice of a runbook.
use roambench.Base.{◌≡◌, refl, ◌∙◌, inl, inr, ◌⊎◌, arith, false, none, some, if◌then◌else◌}
use roambench.Base.Text.{Text, codes, text_eq, is_empty, trim_space, to_lower}
use roambench.Board.{Task}
use roambench.Board.Words.{normal}
use roambench.Board.Runbook.{
  code_change, docs_update, code_skill, docs_skill, default_runbooks, find_skill, find_runbook,
  choose_runbook, suits, choose_skill, skill_for, default_for, runbook_for,
}

find_runbook-cases :
    (id : Text)
    → (find_runbook default_runbooks id ≡ none)
      ⊎ (find_runbook default_runbooks id ≡ some code_change)
      ⊎ (find_runbook default_runbooks id ≡ some docs_update)
unfolding find_runbook
find_runbook-cases id = ground arith

pub choose_skill-cases :
    (id : Text) → (choose_skill id ≡ code_skill) ⊎ (choose_skill id ≡ docs_skill)
unfolding choose_skill find_skill
choose_skill-cases id = ground arith

default_for-code : default_for code_skill ≡ code_change
unfolding default_for find_runbook normal trim_space to_lower text_eq
default_for-code = refl

default_for-docs : default_for docs_skill ≡ docs_update
unfolding default_for find_runbook normal trim_space to_lower text_eq
default_for-docs = refl

suits-others : (suits code_skill docs_update ≡ false) × (suits docs_skill code_change ≡ false)
unfolding normal trim_space to_lower text_eq
suits-others = (refl, refl)

choose_runbook-code : (id : Text) → choose_runbook code_skill id ≡ default_for code_skill
unfolding choose_runbook
choose_runbook-code id = ground (
  arith,
  find_runbook-cases (if is_empty (trim_space id) then codes "code_change_default" else id),
  default_for-code,
  suits-others,
)

choose_runbook-docs : (id : Text) → choose_runbook docs_skill id ≡ default_for docs_skill
unfolding choose_runbook
choose_runbook-docs id = ground (
  arith,
  find_runbook-cases (if is_empty (trim_space id) then codes "docs_update_default" else id),
  default_for-docs,
  suits-others,
)

-- The runbook of a task is the one that is default for its skill, whatever runbook the task names.
pub runbook_for-eq-default_for : (task : Task) → runbook_for task ≡ default_for (skill_for task)
unfolding runbook_for
runbook_for-eq-default_for task = elim (choose_skill-cases task.selected_skill) [
  | inl e ↦ rw e (choose_runbook-code task.runbook_id)
  | inr e ↦ rw e (choose_runbook-docs task.runbook_id)
]

-- So it is one of the two that are built in.
pub runbook_for-cases :
    (task : Task) → (runbook_for task ≡ code_change) ⊎ (runbook_for task ≡ docs_update)
runbook_for-cases task = elim (choose_skill-cases task.selected_skill) [
  | inl e ↦ inl (runbook_for-eq-default_for task ∙ rw e default_for-code)
  | inr e ↦ inr (runbook_for-eq-default_for task ∙ rw e default_for-docs)
]

choose_skill-code : choose_skill code_skill.id ≡ code_skill
unfolding choose_skill find_skill normal trim_space to_lower text_eq
choose_skill-code = refl

choose_skill-docs : choose_skill docs_skill.id ≡ docs_skill
unfolding choose_skill find_skill normal trim_space to_lower text_eq
choose_skill-docs = refl

-- A skill that was chosen is chosen again under its own id.
pub choose_skill-id : (id : Text) → choose_skill (choose_skill id).id ≡ choose_skill id
choose_skill-id id = elim (choose_skill-cases id) [
  | inl e ↦ rw e choose_skill-code
  | inr e ↦ rw e choose_skill-docs
]
