-- ===== src/ControlPlane/Migration/Import.antt =====
-- The parts of the import: `importLegacyCheckpoint`, `importLegacyDecision` and
-- `ImportLegacyApprovals` of internal/controlplane/migration.go.
use roambench.Base.{
  ℕ, ◌-◌, ⊤, false, ◌||◌, not, Option, none, some, [], ◌∷◌, ◌++◌, map, any, find, count, ◌==◌,
  if◌then◌else◌,
}
use roambench.Base.Text.{Text, codes, is_empty, trim_space}
use roambench.ControlPlane.Errors.{Result, ok, err, validation, storage}
use roambench.ControlPlane.Db.{
  Status, expired, cancelled, resolved, is_pending, Interaction, Response, Decision, EventType,
  of_import, of_reimport, OutboxEvent, ProjectionState, Projection, Db, Tx, ◌>>=◌, ◌>>◌, pure,
  transact,
}
use roambench.ControlPlane.Interactions.{normalized_strings, at_request}
use roambench.ControlPlane.Interactions.Create.{same_interaction}
use roambench.ControlPlane.Migration.Statements.{
  add_message, add_response, add_decision, add_projection, add_audit,
}
use roambench.ControlPlane.Migration.{
  LegacyCheckpoint, LegacyDecision, LegacyAuditEvent, Snapshot, legacy_status, legacy_action,
  version_of, is_newer, is_unchanged, each,
}

module _ (parse_time : Text → Option ℕ) (decimal : ℕ → Text) (now : ℕ) where
  -- `normalizedLegacyTime`.
  unfoldable pub normalized_time : Text → ℕ
  normalized_time value = elim (parse_time (trim_space value)) [ none ↦ now | some t ↦ t ]

  -- `nullableLegacyResolved`.
  abbrev resolved_time : Status → Text → ℕ
  resolved_time status value = if is_pending status then 0 else normalized_time value

  -- The row of a checkpoint that is new.
  unfoldable pub imported_row : Text → LegacyCheckpoint → Interaction
  imported_row user c = record {
    request_id = c.id;
    username = user;
    checkpoint_id = c.id;
    task_id = c.task_id;
    runtime_id = codes "project-control";
    session_id = codes "project-control";
    adapter_kind = codes "project-control";
    vendor_request_id = c.id;
    request_kind = c.kind;
    risk_class = codes "R1";
    title = c.title;
    summary = c.reason;
    preview = c.reason;
    artifact_refs = [];
    allowed_actions = normalized_strings c.allowed_actions;
    response_schema = record {
      kind = codes "action";
      options = [];
      min_selections = 0;
      max_selections = 0;
      max_feedback_length = 500;
      allow_custom_text = false;
    };
    ui_hints = codes "{}";
    status = (legacy_status c.status).0;
    final_action = (legacy_status c.status).1;
    created_at = normalized_time c.requested_at;
    expires_at = 0;
    resolved_at = resolved_time (legacy_status c.status).0 c.requested_at;
    row_version = version_of c;
    input_hash = c.input_hash;
  }

  -- The SET of the update of a row that stands already.
  unfoldable pub overwritten : LegacyCheckpoint → Interaction → Interaction
  overwritten c r = record r {
    task_id = c.task_id;
    request_kind = c.kind;
    title = c.title;
    summary = c.reason;
    preview = c.reason;
    allowed_actions = normalized_strings c.allowed_actions;
    status = (legacy_status c.status).0;
    final_action = (legacy_status c.status).1;
    resolved_at = resolved_time (legacy_status c.status).0 c.requested_at;
    row_version = version_of c;
    input_hash = c.input_hash;
  }

  -- The type of the event of an update.
  abbrev event_type_of : Status → EventType
  event_type_of expired = EventType.expired
  event_type_of cancelled = EventType.cancelled
  event_type_of _ = EventType.updated

  abbrev pub update_message : Text → LegacyCheckpoint → OutboxEvent
  update_message user c = record {
    event_id = codes "legacy-updated-" ++ c.id ++ codes "-" ++ decimal (version_of c);
    username = user;
    aggregate_id = c.id;
    event_type = event_type_of (legacy_status c.status).0;
    payload = of_reimport c.id (legacy_status c.status).0 (version_of c);
    created_at = normalized_time c.requested_at;
  }

  abbrev pub create_message : Text → LegacyCheckpoint → OutboxEvent
  create_message user c = record {
    event_id = codes "legacy-created-" ++ c.id;
    username = user;
    aggregate_id = c.id;
    event_type = EventType.created;
    payload = of_import c.id;
    created_at = normalized_time c.requested_at;
  }

  -- The update, and the number of rows that it affected.
  unfoldable pub overwrite_rows : Text → LegacyCheckpoint → Interaction → Tx ℕ
  unfolding overwritten
  overwrite_rows user c old db =
      let test = is_unchanged user old in
      ok (
        count test db.interactions,
        record db {
          interactions = map (λ r. if test r then overwritten c r else r) db.interactions;
        },
      )

  -- A checkpoint whose row stands already.
  unfoldable pub import_again : Text → LegacyCheckpoint → Tx ⊤
  unfolding is_newer overwrite_rows add_message
  import_again user c db = elim (find (at_request user c.id) db.interactions) [
    | none ↦ err storage
    | some old ↦
        if not (is_newer (legacy_status c.status).0 (version_of c) old)
        then ok (tt, db)
        else (overwrite_rows user c old >>= λ affected.
              if not (affected == 1) then pure tt else add_message (update_message user c))
            db
  ]

  -- `importLegacyCheckpoint`.
  unfoldable pub import_checkpoint : Text → LegacyCheckpoint → Tx ⊤
  unfolding imported_row import_again add_message same_interaction
  import_checkpoint user c db =
      let r = imported_row user c in
      if any (same_interaction r) db.interactions
      then import_again user c db
      else add_message (create_message user c)
          (record db { interactions = db.interactions ++ r ∷ [] })

  -- The response that a decision on this row stands for.
  abbrev pub legacy_response : Text → LegacyDecision → Interaction → Response
  legacy_response user d r = record {
    response_id = d.id;
    request_id = r.request_id;
    username = user;
    checkpoint_id = r.checkpoint_id;
    input = record {
      action = legacy_action d.decision_type;
      selected_option_ids = [];
      feedback = d.summary;
      actor = d.actor;
      device_id = codes "migration";
      auth_evidence = codes "legacy-import";
      expected_row_version = r.row_version - 1;
      idempotency_key = codes "legacy-" ++ d.id;
      input_hash = r.input_hash;
    };
    created_at = normalized_time d.timestamp;
  }

  abbrev pub legacy_decision : LegacyDecision → Interaction → Decision
  legacy_decision d r = record {
    decision_id = d.id;
    request_id = r.request_id;
    response_id = d.id;
    action = legacy_action d.decision_type;
    actor = d.actor;
    input_hash = r.input_hash;
    created_at = normalized_time d.timestamp;
  }

  unfoldable pub answer_row : Text → LegacyDecision → Interaction → Tx ⊤
  unfolding add_response add_decision
  answer_row user d r =
      add_response (legacy_response user d r) >> add_decision (legacy_decision d r)

  -- The two inserts that select from the row, where there is one.
  unfoldable pub answer_rows : Text → LegacyDecision → Tx ⊤
  answer_rows user d db = elim (find (at_request user d.checkpoint_id) db.interactions) [
    | none ↦ ok (tt, db)
    | some r ↦ answer_row user d r db
  ]

  abbrev pub resolved_row : LegacyDecision → Interaction → Interaction
  resolved_row d r = record r {
    status = resolved;
    final_action = legacy_action d.decision_type;
    resolved_at = normalized_time d.timestamp;
  }

  -- `UPDATE interactions SET status='resolved',final_action=?,resolved_at=?`.
  unfoldable pub resolve_rows : Text → LegacyDecision → Tx ⊤
  unfolding legacy_action
  resolve_rows user d db =
      let test = at_request user d.checkpoint_id in
      ok (
        tt,
        record db {
          interactions = map (λ r. if test r then resolved_row d r else r) db.interactions;
        },
      )

  abbrev pub legacy_projection : Text → LegacyDecision → Projection
  legacy_projection user d = record {
    decision_id = d.id;
    username = user;
    request_id = d.checkpoint_id;
    response_id = d.id;
    state = ProjectionState.applied;
    attempt_count = 0;
    last_error = [];
    created_at = normalized_time d.timestamp;
    updated_at = normalized_time d.timestamp;
  }

  -- `importLegacyDecision`.
  unfoldable pub import_decision : Text → LegacyDecision → Tx ⊤
  unfolding answer_rows resolve_rows add_projection
  import_decision user d = do
    answer_rows user d
    resolve_rows user d
    add_projection (legacy_projection user d)

  -- The audit events that name a checkpoint.
  unfoldable pub import_event : Text → LegacyAuditEvent → Tx ⊤
  unfolding add_audit
  import_event user e =
      if is_empty (trim_space e.checkpoint_id)
      then pure tt
      else add_audit (record {
        event_id = codes "legacy-" ++ e.id;
        username = user;
        request_id = e.checkpoint_id;
        event_type = EventType.recorded e.action;
        actor = e.actor;
        detail = e.detail;
        created_at = normalized_time e.timestamp;
      })

  -- All of a snapshot.
  unfoldable pub import_all : Text → Snapshot → Tx (Result ⊤)
  unfolding each import_checkpoint import_decision import_event
  import_all user s = do
    each (import_checkpoint user) s.checkpoints
    each (import_decision user) s.decisions
    each (import_event user) s.audit_events
    pure (ok tt)

  -- `ImportLegacyApprovals`.
  unfoldable pub import_legacy_approvals : Snapshot → Db → Result ⊤ × Db
  unfolding import_all
  import_legacy_approvals s db =
      if is_empty (trim_space s.username) || is_empty (trim_space s.source_hash)
      then (err validation, db)
      else transact (import_all (trim_space s.username) s) db
