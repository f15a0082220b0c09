-- ===== src/Board/Tests/Projections.antt =====
-- Decisions that are answered in the control plane.
use roambench.Base.{false, [], ◌∷◌, List}
use roambench.Base.Text.{Text, codes}
use roambench.ControlPlane.Db.{resolved, Interaction, Response, ProjectionState, Projection, Db}
use roambench.Board.{Board}
use roambench.Board.Words.{TaskState, Acceptance, PhaseId}
use roambench.Board.Checkpoints.{final_acceptance}
use roambench.Board.Tests.{docs_task, board_of}

-- A review of a task without any evidence, answered in the control plane.
abbrev early_board : Board
early_board =
    board_of (docs_task (codes "t") TaskState.planned Acceptance.not_ready PhaseId.plan) [] []

abbrev answered : Interaction
answered = record {
  request_id = codes "c";
  username = codes "ann";
  checkpoint_id = codes "c";
  task_id = codes "t";
  runtime_id = [];
  session_id = [];
  adapter_kind = [];
  vendor_request_id = codes "c";
  request_kind = final_acceptance;
  risk_class = codes "R1";
  title = codes "Review";
  summary = [];
  preview = [];
  artifact_refs = [];
  allowed_actions = codes "approve" ∷ [];
  response_schema = record {
    kind = codes "action";
    options = [];
    min_selections = 0;
    max_selections = 0;
    max_feedback_length = 500;
    allow_custom_text = false;
  };
  ui_hints = [];
  status = resolved;
  final_action = codes "approve";
  created_at = 1;
  expires_at = 0;
  resolved_at = 2;
  row_version = 2;
  input_hash = codes "h";
}

abbrev approval : Response
approval = record {
  response_id = codes "d";
  request_id = codes "c";
  username = codes "ann";
  checkpoint_id = codes "c";
  input = record {
    action = codes "approve";
    selected_option_ids = [];
    feedback = [];
    actor = codes "ann";
    device_id = codes "web";
    auth_evidence = [];
    expected_row_version = 1;
    idempotency_key = codes "k";
    input_hash = codes "h";
  };
  created_at = 2;
}

abbrev due : Projection
due = record {
  decision_id = codes "d";
  username = codes "ann";
  request_id = codes "c";
  response_id = codes "d";
  state = ProjectionState.pending;
  attempt_count = 0;
  last_error = [];
  created_at = 2;
  updated_at = 2;
}

abbrev answered_db : Db
answered_db = record {
  interactions = answered ∷ [];
  responses = approval ∷ [];
  decisions = [];
  audit_events = [];
  outbox_events = [];
  response_keys = [];
  post_keys = [];
  projections = due ∷ [];
}

abbrev projected_events : List Text
projected_events =
    codes "event-projection-d"
    ∷ codes "event-projection-checkpoint-resolved-d"
    ∷ codes "event-projection-decision-made-d"
    ∷ codes "event-projection-z-decision-action-d"
    ∷ []

-- The task is accepted, although it is planned and has no evidence.
abbrev projected_board : Board
projected_board = record early_board {
  tasks =
      record (docs_task (codes "t") TaskState.planned Acceptance.accepted PhaseId.plan) {
        acceptance_decision_id = codes "d";
        row_version = 2;
      }
      ∷ [];
}
