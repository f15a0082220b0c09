-- ===== src/Board/Phases/Inversion.antt =====
-- What a phase that was completed has passed.
use roambench.Base.{◌≡◌, refl, Bool, true, false, ◌||◌, not, Option, none, some, arith, ⊤}
use roambench.Base.Text.{is_empty}
use roambench.Board.{Task, PhaseAttempt, Board, TaskUpdate, Refusal, granted, bind-granted}
use roambench.Board.Words.{PhaseId, normal, normalize_outcome, same_phase}
use roambench.Board.Runbook.{RunbookPhase, runbook_for, next_phase}
use roambench.Board.Evidence.{outcome_passes, missing_evidence, refresh}
use roambench.Board.Phases.{Host, runs, find_last, guard, or_refuse}
use roambench.Board.Phases.Steps.{
  is_nil, requested_phase, find_requested, takes_kind, finish_attempt, advanced, complete_phase,
}

pub guard-granted : (b : Bool) (e : Refusal) (u : ⊤) → guard b e ≡ granted u → b ≡ true
guard-granted true e u h = refl
guard-granted false e u h = absurd (ground arith)

pub or_refuse-granted {ℓ} :
    {A : Type ℓ} (o : Option A) (e : Refusal) (a : A) → or_refuse o e ≡ granted a → o ≡ some a
or_refuse-granted none e a h = absurd (ground arith)
or_refuse-granted (some x) e a h = ground arith

-- The task and the board once the artifact is recorded.
abbrev pub finished : Host → TaskUpdate → Task → Board → PhaseId → PhaseAttempt → Task × Board
finished host req t board phase attempt =
    finish_attempt host phase (normal req.artifact_kind) (normalize_outcome req.artifact_outcome)
      req t board attempt

-- The checks of `complete_phase` on the refreshed task, and what comes of it.
pub record Completes (host : Host) (req : TaskUpdate) (t : Task) (board : Board)
    (out : Task × Board) : Type 0 where
  pub phase : RunbookPhase
  pub attempt : PhaseAttempt
  pub next : PhaseId
  pub found : find_requested (requested_phase req.phase_id t) t ≡ granted phase
  pub ran : find_last (runs t.id phase.id) board.attempts ≡ some attempt
  pub takes : takes_kind phase (normal req.artifact_kind) ≡ granted tt
  pub passes :
      (is_empty (normal req.artifact_kind)
        || outcome_passes (normal req.artifact_kind) (normalize_outcome req.artifact_outcome))
      ≡ true
  pub rules :
      (not (same_phase phase.id PhaseId.final_validation)
        || is_nil (
            missing_evidence t.id board.artifacts
              (runbook_for t)
              (normal req.artifact_kind)
              (normalize_outcome req.artifact_outcome)))
      ≡ true
  pub follows : next_phase (runbook_for t) phase.id ≡ some next
  pub result : out ≡ (
    advanced next
        (finished host req t board phase.id attempt).1.artifacts
        (finished host req t board phase.id attempt).0,
    (finished host req t board phase.id attempt).1,
  )

pub complete_phase-granted :
    (host : Host) (req : TaskUpdate) (task : Task) (board : Board) (out : Task × Board)
    → complete_phase host req task board ≡ granted out
    → Completes host req (refresh board.artifacts task) board out
unfolding complete_phase
complete_phase-granted host req task board out e =
    let (phase, h1, e1) = bind-granted _ _ out e in
    let (attempt, h2, e2) = bind-granted _ _ out e1 in
    let (_, h3, e3) = bind-granted _ _ out e2 in
    let (u4, h4, e4) = bind-granted _ _ out e3 in
    let (u5, h5, e5) = bind-granted _ _ out e4 in
    let (next, h6, e6) = bind-granted _ _ out e5 in
    record {
      phase = phase;
      attempt = attempt;
      next = next;
      found = h1;
      ran = or_refuse-granted _ _ attempt h2;
      takes = h3;
      passes = guard-granted _ _ u4 h4;
      rules = guard-granted _ _ u5 h5;
      follows = or_refuse-granted _ _ next h6;
      result = ground arith;
    }
