-- ===== src/Board/Phases/Readiness.antt =====
-- A task gets ready for acceptance only by evidence.
use roambench.Base.{
  ◌≡◌, refl, sym, ap, ◌∙◌, subst, true, false, Option, none, some, List, [], ◌∷◌, ◌++◌, arith,
  find-All, All, inl, inr,
}
use roambench.Base.Text.{Text, text_eq, text_eq_refl, is_empty}
use roambench.Board.{Task, PhaseAttempt, Artifact, Board, TaskUpdate, granted}
use roambench.Board.Words.{TaskState, PhaseId, normal, normalize_outcome, same_phase}
use roambench.Board.Runbook.{
  Runbook, RunbookPhase, code_change, docs_update, runbook_for, find_phase, next_phase, main_after,
  first_main, recovery_target,
}
use roambench.Board.Runbook.Selection.{runbook_for-cases}
use roambench.Board.Evidence.{missing_evidence, refresh}
use roambench.Board.Evidence.Complete.{Proven, missing-recorded}
use roambench.Board.Phases.{Host, state_for_phase}
use roambench.Board.Phases.Steps.{
  is_nil, requested_phase, find_requested, takes_kind, finish_attempt, with_artifact, new_artifact,
  advanced, complete_phase,
}
use roambench.Board.Phases.Inversion.{
  or_refuse-granted, Completes, finished, complete_phase-granted,
}

-- Only the last phase is followed by acceptance.
abbrev Ends : Runbook → Type 0
Ends r =
    (id : PhaseId)
    → next_phase r id ≡ some PhaseId.ready_for_acceptance
    → id ≡ PhaseId.final_validation

code_change-Ends : Ends code_change
unfolding next_phase main_after first_main recovery_target find_phase same_phase text_eq
code_change-Ends PhaseId.plan h = absurd (ground arith)
code_change-Ends PhaseId.implement h = absurd (ground arith)
code_change-Ends PhaseId.write h = absurd (ground arith)
code_change-Ends PhaseId.test h = absurd (ground arith)
code_change-Ends PhaseId.review h = absurd (ground arith)
code_change-Ends PhaseId.fix_or_replan h = absurd (ground arith)
code_change-Ends PhaseId.final_validation h = refl
code_change-Ends PhaseId.ready_for_acceptance h = absurd (ground arith)

docs_update-Ends : Ends docs_update
unfolding next_phase main_after first_main recovery_target find_phase same_phase text_eq
docs_update-Ends PhaseId.plan h = absurd (ground arith)
docs_update-Ends PhaseId.implement h = absurd (ground arith)
docs_update-Ends PhaseId.write h = absurd (ground arith)
docs_update-Ends PhaseId.test h = absurd (ground arith)
docs_update-Ends PhaseId.review h = absurd (ground arith)
docs_update-Ends PhaseId.fix_or_replan h = absurd (ground arith)
docs_update-Ends PhaseId.final_validation h = refl
docs_update-Ends PhaseId.ready_for_acceptance h = absurd (ground arith)

runbook_for-Ends : (task : Task) → Ends (runbook_for task)
runbook_for-Ends task = elim (runbook_for-cases task) [
  | inl e ↦ subst Ends (sym e) code_change-Ends
  | inr e ↦ subst Ends (sym e) docs_update-Ends
]

-- Which phase comes next decides the state.
advanced_complete :
    (next : PhaseId) (artifacts : List Artifact) (t : Task)
    → (advanced next artifacts t).state ≡ TaskState.execution_complete
    → next ≡ PhaseId.ready_for_acceptance
unfolding state_for_phase
advanced_complete PhaseId.ready_for_acceptance artifacts t h = refl
advanced_complete PhaseId.plan artifacts t h = absurd (ground arith)
advanced_complete PhaseId.implement artifacts t h = absurd (ground arith)
advanced_complete PhaseId.write artifacts t h = absurd (ground arith)
advanced_complete PhaseId.test artifacts t h = absurd (ground arith)
advanced_complete PhaseId.review artifacts t h = absurd (ground arith)
advanced_complete PhaseId.fix_or_replan artifacts t h = absurd (ground arith)
advanced_complete PhaseId.final_validation artifacts t h = absurd (ground arith)

pub is_nil-eq {ℓ} : {A : Type ℓ} (xs : List A) → is_nil xs ≡ true → xs ≡ []
is_nil-eq [] h = refl
is_nil-eq (x ∷ xs) h = absurd (ground arith)

-- Every phase that is built in requires an artifact.
abbrev Requires : RunbookPhase → Type 0
Requires phase = is_nil phase.required_artifacts ≡ false

phases-Requires : (task : Task) → All Requires (runbook_for task).phases
phases-Requires task = elim (runbook_for-cases task) [
  | inl e ↦
      subst (λ r. All Requires r.phases) (sym e) (refl, (refl, (refl, (refl, (refl, (refl, tt))))))
  | inr e ↦ subst (λ r. All Requires r.phases) (sym e) (refl, (refl, (refl, (refl, (refl, tt)))))
]

find_phase-Requires :
    (task : Task) (id : PhaseId) (phase : RunbookPhase)
    → find_phase (runbook_for task) id ≡ some phase
    → Requires phase
unfolding find_phase
find_phase-Requires task id phase h =
    find-All Requires (λ p. same_phase p.id id) (runbook_for task).phases phase
      (phases-Requires task) h

takes_kind-given :
    (phase : RunbookPhase) (kind : Text)
    → Requires phase
    → takes_kind phase kind ≡ granted tt
    → is_empty kind ≡ false
unfolding takes_kind
takes_kind-given phase kind r h = ground arith

-- All completion rules of the task's runbook are proven by the artifacts of the board.
abbrev pub Ready : Task × Board → Type 0
Ready (task, board) = Proven task.id board.artifacts (runbook_for task).completion_rules

Ready-advanced :
    (task : Task) (board : Board)
    → Ready (task, board)
    → Ready (advanced PhaseId.ready_for_acceptance board.artifacts task, board)
unfolding runbook_for
Ready-advanced task board h = h

final_refl : same_phase PhaseId.final_validation PhaseId.final_validation ≡ true
unfolding same_phase text_eq
final_refl = refl

find_requested-Requires :
    (id : Option PhaseId) (task : Task) (phase : RunbookPhase)
    → find_requested id task ≡ granted phase
    → Requires phase
find_requested-Requires none task phase h = absurd (ground arith)
find_requested-Requires (some id) task phase h =
    find_phase-Requires task id phase (or_refuse-granted _ _ phase h)

module _ (host : Host) (req : TaskUpdate) (t : Task) (board : Board) where
  abbrev artifact_of : PhaseId → PhaseAttempt → Artifact
  artifact_of phase attempt =
      new_artifact host t attempt.id phase (normal req.artifact_kind)
        (normalize_outcome req.artifact_outcome) req.artifact_label req.artifact_value

  -- What is recorded when a kind is given.
  finished-artifacts :
      (phase : PhaseId) (attempt : PhaseAttempt)
      → is_empty (normal req.artifact_kind) ≡ false
      → (finished host req t board phase attempt).1.artifacts
        ≡ board.artifacts ++ artifact_of phase attempt ∷ []
  unfolding finish_attempt
  finished-artifacts phase attempt h = rw h refl

  finished-task :
      (phase : PhaseId) (attempt : PhaseAttempt)
      → is_empty (normal req.artifact_kind) ≡ false
      → (finished host req t board phase attempt).0 ≡ with_artifact (artifact_of phase attempt) t
  unfolding finish_attempt
  finished-task phase attempt h = rw h refl

  -- The last phase misses nothing, with the artifact that it records.
  Completes-missing :
      (out : Task × Board) (c : Completes host req t board out)
      → c.phase.id ≡ PhaseId.final_validation
      → missing_evidence t.id board.artifacts
          (runbook_for t)
          (normal req.artifact_kind)
          (normalize_outcome req.artifact_outcome)
        ≡ []
  Completes-missing out c h =
      let last : same_phase c.phase.id PhaseId.final_validation ≡ true = rw h final_refl in
      is_nil-eq _ (ground (arith, last, c.rules))

  -- The phase that was found requires an artifact, so a kind was given.
  Completes-given :
      (out : Task × Board) (c : Completes host req t board out)
      → is_empty (normal req.artifact_kind) ≡ false
  Completes-given out c =
      takes_kind-given c.phase (normal req.artifact_kind)
        (find_requested-Requires (requested_phase req.phase_id t) t c.phase c.found) c.takes

  recorded-Ready :
      (out : Task × Board) (c : Completes host req t board out)
      → c.next ≡ PhaseId.ready_for_acceptance
      → Ready (
        with_artifact (artifact_of c.phase.id c.attempt) t,
        (finished host req t board c.phase.id c.attempt).1,
      )
  unfolding with_artifact runbook_for new_artifact
  recorded-Ready out c e =
      let a = artifact_of c.phase.id c.attempt in
      let last = runbook_for-Ends t c.phase.id (c.follows ∙ ap some e) in
      rw (finished-artifacts c.phase.id c.attempt (Completes-given out c)) (
        missing-recorded t.id board.artifacts (runbook_for t) a (text_eq_refl t.id)
          (Completes-missing out c last))

  advanced-Ready :
      (out : Task × Board) (c : Completes host req t board out)
      → c.next ≡ PhaseId.ready_for_acceptance
      → Ready out
  advanced-Ready out c e =
      let fin = finished host req t board c.phase.id c.attempt in
      let same = finished-task c.phase.id c.attempt (Completes-given out c) in
      let done = subst (λ z. Ready (z, fin.1)) (sym same) (recorded-Ready out c e) in
      let named = Ready-advanced fin.0 fin.1 done in
      subst Ready (sym c.result)
        (subst (λ n. Ready (advanced n fin.1.artifacts fin.0, fin.1)) (sym e) named)

-- When completing a phase makes the task execution_complete, each completion rule of its runbook has
-- an artifact of the task that passes, the one that was recorded with it included.
pub complete_phase-Ready :
    (host : Host) (req : TaskUpdate) (task : Task) (board : Board) (out : Task × Board)
    → complete_phase host req task board ≡ granted out
    → out.0.state ≡ TaskState.execution_complete
    → Ready out
complete_phase-Ready host req task board out e h =
    let t = refresh board.artifacts task in
    let c = complete_phase-granted host req task board out e in
    let state = sym (ap (λ o. o.0.state) c.result) ∙ h in
    advanced-Ready host req t board out c (advanced_complete c.next _ _ state)
