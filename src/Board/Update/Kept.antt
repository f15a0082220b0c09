-- ===== src/Board/Update/Kept.antt =====
-- What the actions of the runbook leave alone.
use roambench.Base.{
  ◌≡◌, refl, sym, ◌∙◌, subst, true, ◌&&◌, not, inl, inr, ◌∷◌, ◌++◌, any, arith, Bool-cases,
  Option-cases,
}
use roambench.Base.Text.{Text, codes, text_eq, is_empty, trim_space}
use roambench.Board.{
  Task, PhaseAttempt, Board, TaskUpdate, granted, bind-granted, granted-injective, Answer-cases,
  shared_directory, phase_running, no_running_attempt, invalid_tool, no_workspace, tool_running,
}
use roambench.Board.Words.{
  TaskState, Acceptance, PhaseId, Outcome, normal, normalize_outcome, phase_text,
}
use roambench.Board.Runbook.{runbook_for, find_phase}
use roambench.Board.Evidence.{refresh}
use roambench.Board.Phases.{
  Host, runs, find_last, guard, or_refuse, can_start_phase, is_managed, shared_directory_conflict,
}
use roambench.Board.Phases.Steps.{
  requested_phase, find_requested, start_phase, finish_attempt, with_artifact, advanced,
  complete_phase, fail_phase,
}
use roambench.Board.Phases.Inversion.{finished, complete_phase-granted}
use roambench.Board.Tools.{start_tool, tools_for, tool_for_phase, validate_tool, runs_tool}
use roambench.Board.Update.{is_judged, first_phase, try_tool, start_execution, run_action}

-- The other records of the board and the id stay, and no verdict comes anew.
pub record Keeps (task : Task) (board : Board) (out : Task × Board) : Type 0 where
  pub id : out.0.id ≡ task.id
  pub verdict :
      is_judged out.0.acceptance_status ≡ true → out.0.acceptance_status ≡ task.acceptance_status
  pub checkpoints : out.1.checkpoints ≡ board.checkpoints
  pub decisions : out.1.decisions ≡ board.decisions
  pub tasks : out.1.tasks ≡ board.tasks

Keeps-trans :
    (task : Task) (board : Board) (mid out : Task × Board)
    → Keeps task board mid
    → Keeps mid.0 mid.1 out
    → Keeps task board out
Keeps-trans task board mid out a b = record {
  id = b.id ∙ a.id;
  verdict =
      λ h. let same = b.verdict h in same ∙ a.verdict (subst (λ s. is_judged s ≡ true) same h);
  checkpoints = b.checkpoints ∙ a.checkpoints;
  decisions = b.decisions ∙ a.decisions;
  tasks = b.tasks ∙ a.tasks;
}

refresh-Keeps :
    (task : Task) (board : Board) → Keeps task board (refresh board.artifacts task, board)
unfolding refresh
refresh-Keeps task board = record {
  id = refl;
  verdict = λ h. refl;
  checkpoints = refl;
  decisions = refl;
  tasks = refl;
}

same-Keeps : (task : Task) (board : Board) → Keeps task board (task, board)
same-Keeps task board = record {
  id = refl;
  verdict = λ h. refl;
  checkpoints = refl;
  decisions = refl;
  tasks = refl;
}

advanced-Keeps :
    (next : PhaseId) (task : Task) (board : Board)
    → Keeps task board (advanced next board.artifacts task, board)
advanced-Keeps PhaseId.ready_for_acceptance task board = record {
  id = refl;
  verdict = λ h. absurd (ground arith);
  checkpoints = refl;
  decisions = refl;
  tasks = refl;
}
advanced-Keeps PhaseId.plan task board = record {
  id = refl;
  verdict = λ h. refl;
  checkpoints = refl;
  decisions = refl;
  tasks = refl;
}
advanced-Keeps PhaseId.implement task board = record {
  id = refl;
  verdict = λ h. refl;
  checkpoints = refl;
  decisions = refl;
  tasks = refl;
}
advanced-Keeps PhaseId.write task board = record {
  id = refl;
  verdict = λ h. refl;
  checkpoints = refl;
  decisions = refl;
  tasks = refl;
}
advanced-Keeps PhaseId.test task board = record {
  id = refl;
  verdict = λ h. refl;
  checkpoints = refl;
  decisions = refl;
  tasks = refl;
}
advanced-Keeps PhaseId.review task board = record {
  id = refl;
  verdict = λ h. refl;
  checkpoints = refl;
  decisions = refl;
  tasks = refl;
}
advanced-Keeps PhaseId.fix_or_replan task board = record {
  id = refl;
  verdict = λ h. refl;
  checkpoints = refl;
  decisions = refl;
  tasks = refl;
}
advanced-Keeps PhaseId.final_validation task board = record {
  id = refl;
  verdict = λ h. refl;
  checkpoints = refl;
  decisions = refl;
  tasks = refl;
}

module _ (host : Host) where
  start_phase-Keeps :
      (requested : Text) (task : Task) (board : Board) (out : Task × Board)
      → start_phase host requested task board ≡ granted out
      → Keeps task board out
  unfolding start_phase refresh
  start_phase-Keeps requested task board out e =
      let t = refresh board.artifacts task in
      let (_, _, e1) =
        bind-granted
          (guard (not (is_managed board task && shared_directory_conflict board task requested))
            shared_directory)
          _ out e in
      let (phase, _, e2) =
        bind-granted (can_start_phase t (requested_phase requested t) (runbook_for t)) _ out e1 in
      let (_, _, e3) =
        bind-granted (guard (not (any (runs t.id phase.id) board.attempts)) phase_running) _ out
          e2 in
      let (dir, _, e4) =
        bind-granted
          (host.prepare t phase
            (host.new_id (codes "phase-attempt") (t.id ++ b'-' ∷ phase_text phase.id)))
          _ out e3 in
      let (session, _, e5) = bind-granted (host.open_session t phase dir) _ out e4 in
      subst (Keeps task board) (granted-injective _ out e5) (record {
        id = refl;
        verdict = λ h. absurd (ground arith);
        checkpoints = refl;
        decisions = refl;
        tasks = refl;
      })

  fail_phase-Keeps :
      (requested reason : Text) (task : Task) (board : Board) (out : Task × Board)
      → fail_phase requested reason task board ≡ granted out
      → Keeps task board out
  unfolding fail_phase refresh
  fail_phase-Keeps requested reason task board out e =
      let t = refresh board.artifacts task in
      let (id, _, e1) =
        bind-granted (or_refuse (requested_phase requested t) no_running_attempt) _ out e in
      let (_, _, e2) =
        bind-granted (or_refuse (find_last (runs t.id id) board.attempts) no_running_attempt) _ out
          e1 in
      subst (Keeps task board) (granted-injective _ out e2) (record {
        id = refl;
        verdict = λ h. absurd (ground arith);
        checkpoints = refl;
        decisions = refl;
        tasks = refl;
      })

  start_tool-Keeps :
      (requested tool : Text) (task : Task) (board : Board) (out : Task × Board)
      → start_tool host requested tool task board ≡ granted out
      → Keeps task board out
  unfolding start_tool refresh
  start_tool-Keeps requested tool task board out e =
      let t = refresh board.artifacts task in
      let (phase, _, e1) = bind-granted (find_requested (requested_phase requested t) t) _ out e in
      let (attempt, _, e2) =
        bind-granted (or_refuse (find_last (runs t.id phase.id) board.attempts) no_running_attempt)
          _ out e1 in
      let (_, _, e3) = bind-granted (guard (not (is_empty (normal tool))) invalid_tool) _ out e2 in
      let (_, _, e4) =
        bind-granted (guard (not (is_empty (trim_space attempt.workspace_ref))) no_workspace) _ out
          e3 in
      let (_, _, e5) =
        bind-granted (validate_tool host.clean (normal tool) phase attempt (tools_for board)) _ out
          e4 in
      let (_, _, e6) =
        bind-granted (guard (not (any (runs_tool t.id attempt.id) board.tool_runs)) tool_running) _
          out e5 in
      subst (Keeps task board) (granted-injective _ out e6) (record {
        id = refl;
        verdict = λ h. refl;
        checkpoints = refl;
        decisions = refl;
        tasks = refl;
      })

  finish_attempt-Keeps :
      (phase : PhaseId) (kind : Text) (outcome : Outcome) (req : TaskUpdate) (task : Task)
      (board : Board) (attempt : PhaseAttempt)
      → Keeps task board (finish_attempt host phase kind outcome req task board attempt)
  unfolding finish_attempt with_artifact
  finish_attempt-Keeps phase kind outcome req task board attempt =
      elim (Bool-cases (is_empty kind)) [
        | inl blank ↦ record {
          id = rw blank refl;
          verdict = λ h. rw blank refl;
          checkpoints = rw blank refl;
          decisions = rw blank refl;
          tasks = rw blank refl;
        }
        | inr named ↦ record {
          id = rw named refl;
          verdict = λ h. rw named refl;
          checkpoints = rw named refl;
          decisions = rw named refl;
          tasks = rw named refl;
        }
      ]

  complete_phase-Keeps :
      (req : TaskUpdate) (task : Task) (board : Board) (out : Task × Board)
      → complete_phase host req task board ≡ granted out
      → Keeps task board out
  complete_phase-Keeps req task board out e =
      let t = refresh board.artifacts task in
      let c = complete_phase-granted host req task board out e in
      let fin = finished host req t board c.phase.id c.attempt in
      let made =
        finish_attempt-Keeps c.phase.id (normal req.artifact_kind)
          (normalize_outcome req.artifact_outcome) req t board c.attempt in
      subst (Keeps task board) (sym c.result) (
        Keeps-trans task board (t, board) _ (refresh-Keeps task board)
          (Keeps-trans t board fin _ made (advanced-Keeps c.next fin.0 fin.1)))

  try_tool-Keeps :
      (id : PhaseId) (task : Task) (board : Board)
      → Keeps task board (try_tool host id (task, board))
  unfolding try_tool
  try_tool-Keeps id task board = elim (Option-cases (find_phase (runbook_for task) id)) [
    | inl e ↦ rw (try_tool, e) (same-Keeps task board)
    | inr (phase, e) ↦ elim (Option-cases (tool_for_phase (tools_for board) phase)) [
      | inl e2 ↦ rw (try_tool, e, e2) (same-Keeps task board)
      | inr (def, e2) ↦ elim (Answer-cases (start_tool host (phase_text id) def.id task board)) [
        | inl (out, e3) ↦
            rw (try_tool, e, e2, e3) (start_tool-Keeps (phase_text id) def.id task board out e3)
        | inr (r, e3) ↦ rw (try_tool, e, e2, e3) (refresh-Keeps task board)
      ]
    ]
  ]

  start_execution-Keeps :
      (task : Task) (board : Board) (out : Task × Board)
      → start_execution host task board ≡ granted out
      → Keeps task board out
  unfolding start_execution
  start_execution-Keeps task board out e =
      let t = record task { state = TaskState.running; acceptance_status = Acceptance.not_ready } in
      let begun : Keeps task board (t, board) = record {
        id = refl;
        verdict = λ h. absurd (ground arith);
        checkpoints = refl;
        decisions = refl;
        tasks = refl;
      } in
      let (mid, h1, e1) =
        bind-granted (start_phase host (phase_text (first_phase t)) t board) _ out e in
      let run = start_phase-Keeps (phase_text (first_phase t)) t board mid h1 in
      subst (Keeps task board) (granted-injective _ out e1) (
        Keeps-trans task board (t, board) _ begun
          (Keeps-trans t board mid _ run (try_tool-Keeps (first_phase t) mid.0 mid.1)))

  -- No action of the runbook touches the checkpoints, the decisions or the other tasks, and none of them
  -- makes a task accepted or rejected.
  pub run_action-Keeps :
      (action : Text) (req : TaskUpdate) (task : Task) (board : Board) (out : Task × Board)
      → run_action host action req task board ≡ granted out
      → Keeps task board out
  unfolding run_action
  run_action-Keeps action req task board out e =
      elim (Bool-cases (text_eq action (codes "start_phase"))) [
        | inl h ↦ start_phase-Keeps req.phase_id task board out (ground arith)
        | inr n1 ↦ elim (Bool-cases (text_eq action (codes "complete_phase"))) [
          | inl h ↦ complete_phase-Keeps req task board out (ground arith)
          | inr n2 ↦ elim (Bool-cases (text_eq action (codes "fail_phase"))) [
            | inl h ↦ fail_phase-Keeps req.phase_id req.failure_reason task board out (ground arith)
            | inr n3 ↦ elim (Bool-cases (text_eq action (codes "run_tool"))) [
              | inl h ↦ start_tool-Keeps req.phase_id req.tool_id task board out (ground arith)
              | inr n4 ↦ elim (Bool-cases (text_eq action (codes "start_execution"))) [
                | inl h ↦ start_execution-Keeps task board out (ground arith)
                | inr n5 ↦
                    let done : granted (task, board) ≡ granted out = ground arith in
                    subst (Keeps task board) (granted-injective _ out done) (same-Keeps task board)
              ]
            ]
          ]
        ]
      ]
