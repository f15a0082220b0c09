-- ===== src/Board/Tests/Decisions.antt =====
-- Decisions on concrete boards.
use roambench.Base.{◌≡◌, refl, arith, true, some, [], ◌∷◌, ◌++◌, find}
use roambench.Base.Text.{Text, codes, text_eq, trim_space, to_lower, contains}
use roambench.Board.{Task, Checkpoint, Board, Answer, granted}
use roambench.Board.Words.{TaskState, Acceptance, PhaseId, normal}
use roambench.Board.Runbook.{
  choose_skill, find_skill, choose_runbook, default_for, find_runbook, allows_runbook, runbook_for,
}
use roambench.Board.Evidence.{
  outcome_passes, requirement, proves, extra_proves, lacks, missing_evidence,
}
use roambench.Board.Phases.Readiness.{Ready}
use roambench.Board.Checkpoints.{
  final_acceptance, dispatch, waits, update_first, auto_approve, needs_approval, sync_acceptance,
  sync_override, sync_dispatch, sync_all,
}
use roambench.Board.Checkpoints.Pending.{waiting, IsSingle}
use roambench.Board.Checkpoints.Reviews.{reviews, waiting-sync_acceptance}
use roambench.Board.Decide.{
  Verb, read_verb, of_task, validate_approval, decision_type, judged, dispatch_decided, settle_task,
  may_decide, decide,
}
use roambench.Board.Decide.Verdict.{decide-final_acceptance}
use roambench.Board.Traces.{Step, Reach, Reach-IsSingle}
use roambench.Board.Tests.{
  test_host, docs_task, evidence_of, docs_evidence, pending_checkpoint, board_of, granted_or,
}

abbrev pub no_print : Board → Task → Answer Text
no_print board task = granted (codes "base")

-- A task under review with all its evidence.
abbrev pub reviewed : Task
reviewed =
    docs_task (codes "t") TaskState.execution_complete Acceptance.under_human_review
      PhaseId.ready_for_acceptance

abbrev pub review : Checkpoint
review =
    pending_checkpoint final_acceptance (codes "approve" ∷ codes "reject" ∷ codes "reroute" ∷ [])

abbrev pub review_board : Board
review_board =
    board_of reviewed (docs_evidence ++ evidence_of (codes "completion_check") ∷ []) (review ∷ [])

abbrev approved_board : Board
approved_board =
    granted_or review_board (decide test_host no_print (codes "c") (codes " Approve") review_board)

approve_runs :
    decide test_host no_print (codes "c") (codes " Approve") review_board ≡ granted approved_board
unfolding decide normal trim_space to_lower text_eq contains choose_skill find_skill choose_runbook
    default_for find_runbook allows_runbook runbook_for outcome_passes requirement proves
    extra_proves lacks missing_evidence waits update_first auto_approve needs_approval
    sync_acceptance sync_override sync_dispatch sync_all read_verb validate_approval decision_type
    judged dispatch_decided settle_task may_decide
approve_runs = refl

approve_read : read_verb (codes " Approve") ≡ some Verb.approve
unfolding read_verb normal trim_space to_lower text_eq
approve_read = refl

review_found : find (λ d. text_eq d.id (codes "c")) review_board.checkpoints ≡ some review
unfolding text_eq
review_found = refl

reviewed_found : find (of_task (codes "t")) review_board.tasks ≡ some reviewed
unfolding text_eq
reviewed_found = refl

pub review_final : text_eq final_acceptance final_acceptance ≡ true
unfolding text_eq
review_final = refl

decide-final_acceptance_example :
    (reviewed.state ≡ TaskState.execution_complete)
    × Ready (reviewed, review_board)
    × ((task' : Task) × (find (of_task (codes "t")) approved_board.tasks ≡ some task')
        × (task'.acceptance_status ≡ Acceptance.accepted)
        × (task'.state ≡ TaskState.execution_complete))
decide-final_acceptance_example =
    decide-final_acceptance test_host no_print (codes "c") (codes " Approve") review_board
      approved_board review reviewed approve_runs approve_read review_found reviewed_found
      review_final

-- A planned task without any evidence, whose dispatch is asked for.
abbrev planned_task : Task
planned_task = docs_task (codes "t") TaskState.planned Acceptance.not_ready PhaseId.plan

abbrev dispatch_checkpoint : Checkpoint
dispatch_checkpoint = pending_checkpoint dispatch (codes "approve" ∷ codes "reject" ∷ [])

abbrev dispatch_board : Board
dispatch_board = board_of planned_task [] (dispatch_checkpoint ∷ [])

abbrev dispatched_board : Board
dispatched_board =
    granted_or dispatch_board
      (decide test_host no_print (codes "c") (codes "approve") dispatch_board)

review-IsSingle : IsSingle review_board.checkpoints
review-IsSingle kind task_id = ground arith

Reach-IsSingle_example : IsSingle approved_board.checkpoints
Reach-IsSingle_example =
    Reach-IsSingle
      (Reach.next Reach.here
        (Step.decided test_host no_print (codes "c") (codes " Approve") approve_runs))
      review-IsSingle

waiting-sync_acceptance_example :
    waiting final_acceptance
      (codes "t")
      (sync_acceptance test_host reviewed review_board).checkpoints
    ≡ reviews reviewed (waiting final_acceptance (codes "t") review_board.checkpoints)
waiting-sync_acceptance_example =
    waiting-sync_acceptance test_host reviewed review_board review-IsSingle
