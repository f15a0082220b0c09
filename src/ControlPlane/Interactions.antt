-- ===== src/ControlPlane/Interactions.antt =====
-- Requests for a human decision and their answers: the operations of
-- internal/controlplane/repository.go that change the tables. The time, the ids that `newID` draws
-- (by their order in one call) and the digest of a request are arguments.
pub mod Respond
pub mod Close
pub mod Create
pub mod Answer
pub mod Lifecycle
pub mod Statements
pub mod Operations
pub mod History
pub mod Guards
pub mod Replay
mod Tests
use roambench.Base.{
  ℕ, ◌+◌, Bool, true, false, ◌&&◌, ◌||◌, not, Option, none, some, List, [], ◌∷◌, ◌++◌, map, any,
  find, filter, count, length, ◌==◌, ltb, leb, ⊤, if◌then◌else◌,
}
use roambench.Base.Text.{
  Text, codes, text_eq, is_empty, trim_space, rune_count, sort_strings, contains,
}
use roambench.ControlPlane.Errors.{Error, Result, ok, err, not_found, conflict, validation, storage}
use roambench.ControlPlane.Risk.{normalize_risk_class, is_high_risk}
use roambench.ControlPlane.Db.{
  Status, pending, resolved, expired, cancelled, is_pending, ResponseSchema, Interaction,
  RespondInput, Response, Decision, EventType, AuditEvent, Payload, of_interaction, of_response,
  of_decision, of_reason, of_session, of_expiry, OutboxEvent, ResponseKey, Operation, create_op,
  cancel_op, op_eq, PostKey, ProjectionState, Projection, Db, Tx, ◌>>=◌, ◌>>◌, pure, fail, fail_if,
  transact, insert_row,
}

-- `strings.TrimSpace(value)`, the empty ones and the repeated ones dropped.
distinct : List Text → List Text → List Text
unfolding contains
distinct seen [] = []
distinct seen (v ∷ vs) =
    let v' = trim_space v in
    if is_empty v' || contains seen v' then distinct seen vs else v' ∷ distinct (v' ∷ seen) vs

-- `normalizedStrings`.
unfoldable pub normalized_strings : List Text → List Text
unfolding distinct
normalized_strings vs = sort_strings (distinct [] vs)

-- CreateInteraction.
pub record CreateInput : Type 0 where
  pub username : Text
  pub checkpoint_id : Text
  pub task_id : Text
  pub runtime_id : Text
  pub session_id : Text
  pub adapter_kind : Text
  pub vendor_request_id : Text
  pub request_kind : Text
  pub risk_class : Text
  pub title : Text
  pub summary : Text
  pub preview : Text
  pub artifact_refs : List Text
  pub allowed_actions : List Text
  pub response_schema : ResponseSchema
  pub ui_hints : Text
  pub expires_at : ℕ
  pub input_hash : Text
  pub actor_scope : Text
  pub idempotency_key : Text

abbrev pub approve_session : Text
approve_session = codes "approve_session"

-- The four schema types that are supported.
unfoldable pub is_schema_type : Text → Bool
is_schema_type k =
    text_eq k (codes "action")
    || text_eq k (codes "single_choice")
    || text_eq k (codes "multiple_choice")
    || text_eq k (codes "text")

-- `validateCreate`: whether the input is accepted.
unfoldable pub validate_create : CreateInput → Bool
unfolding is_schema_type
validate_create i =
    not (
      any (λ v. is_empty (trim_space v))
        (i.username ∷ i.session_id ∷ i.adapter_kind ∷ i.vendor_request_id ∷ i.request_kind
          ∷ i.risk_class ∷ i.title ∷ i.input_hash ∷ []))
    && leb (length i.preview) 8192
    && leb (length i.title) 240
    && leb (length i.summary) 2000
    && ltb 0 (length (normalized_strings i.allowed_actions))
    && is_schema_type i.response_schema.kind

-- `every selected option is declared`.
abbrev pub is_declared : List (Text × Text) → Text → Bool
is_declared options id = any (λ o. text_eq o.0 id) options

-- The selections that the type of the schema admits.
unfoldable pub selection_fits : ResponseSchema → ℕ → Text → Bool
selection_fits s selected feedback =
    if text_eq s.kind (codes "action")
    then selected == 0
    else if text_eq s.kind (codes "single_choice")
    then selected == 1
    else if text_eq s.kind (codes "multiple_choice")
    then not
        (ltb selected s.min_selections || (ltb 0 s.max_selections && ltb s.max_selections selected))
    else if text_eq s.kind (codes "text")
    then not (is_empty (trim_space feedback))
    else true

-- `validateResponse`: whether the answer is accepted.
unfoldable pub validate_response : Interaction → RespondInput → Bool
unfolding selection_fits
validate_response r i =
    not (is_high_risk r.risk_class && text_eq i.action approve_session)
    && contains r.allowed_actions i.action
    && not (
        ltb 0 r.response_schema.max_feedback_length
        && ltb r.response_schema.max_feedback_length (rune_count i.feedback))
    && not (any (λ id. not (is_declared r.response_schema.options id)) i.selected_option_ids)
    && selection_fits r.response_schema (length i.selected_option_ids) i.feedback

-- What is digested for the idempotency keys: the request of each operation.
pub data Request : Type 0 where
  to_create : Interaction → Request
  to_respond : Text → RespondInput → Request
  to_cancel : Text → ℕ → Text → Request

-- `!ExpiresAt.IsZero() && !ExpiresAt.After(now)`.
abbrev pub is_due : ℕ → Interaction → Bool
is_due now r = not (r.expires_at == 0) && not (ltb now r.expires_at)

abbrev pub at_request : Text → Text → Interaction → Bool
at_request user id r = text_eq r.username user && text_eq r.request_id id

-- `getInteractionTx`.
abbrev pub get_interaction : Text → Text → Tx Interaction
get_interaction user id db = elim (find (at_request user id) db.interactions) [
  | none ↦ err not_found
  | some r ↦ ok (r, db)
]

-- `WHERE username=? AND request_id=? AND status='pending' AND row_version=?`.
abbrev pub is_open_at : Text → Text → ℕ → Interaction → Bool
is_open_at user id version r =
    at_request user id r && is_pending r.status && r.row_version == version

-- The SET of the three updates that end an interaction.
abbrev pub close_row : Status → Text → ℕ → Interaction → Interaction
close_row s action now r = record r {
  status = s;
  final_action = action;
  resolved_at = now;
  row_version = r.row_version + 1;
}

-- One such update, and the number of rows that it affected.
unfoldable pub close_interaction : Status → Text → ℕ → Text → Text → ℕ → Tx ℕ
close_interaction s action now user id version db =
    let test = is_open_at user id version in
    let rows = map (λ r. if test r then close_row s action now r else r) db.interactions in
    ok (count test db.interactions, record db { interactions = rows })

-- `insertAudit`.
unfoldable pub insert_audit : Text → Text → Text → EventType → Text → Text → ℕ → Tx ⊤
insert_audit event user id type actor detail now db =
    let e : AuditEvent = record {
      event_id = event;
      username = user;
      request_id = id;
      event_type = type;
      actor = actor;
      detail = detail;
      created_at = now;
    } in
    elim (insert_row (λ a b. text_eq a.event_id b.event_id) storage e db.audit_events) [
      | err x ↦ err x
      | ok t ↦ ok (tt, record db { audit_events = t })
    ]

-- `insertOutbox`.
unfoldable pub insert_outbox : Text → Text → Text → EventType → Payload → ℕ → Tx ⊤
insert_outbox event user id type payload now db =
    let e : OutboxEvent = record {
      event_id = event;
      username = user;
      aggregate_id = id;
      event_type = type;
      payload = payload;
      created_at = now;
    } in
    elim (insert_row (λ a b. text_eq a.event_id b.event_id) storage e db.outbox_events) [
      | err x ↦ err x
      | ok t ↦ ok (tt, record db { outbox_events = t })
    ]
