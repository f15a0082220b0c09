-- ===== src/ControlPlane/Interactions/Respond.antt =====
-- Answering an interaction: `Respond` of internal/controlplane/repository.go.
use roambench.Base.{
  ℕ, ⊤, Bool, true, false, ◌&&◌, ◌||◌, not, Option, some, none, [], ◌++◌, if◌then◌else◌, find, ltb,
  ◌==◌,
}
use roambench.Base.Text.{Text, codes, text_eq, is_empty, trim_space, sort_strings}
use roambench.ControlPlane.Errors.{Result, ok, err, not_found, conflict, validation, storage}
use roambench.ControlPlane.Db.{
  resolved, expired, is_pending, Interaction, RespondInput, Response, Decision, EventType,
  of_response, of_decision, of_expiry, ResponseKey, ProjectionState, Projection, Db, Tx, ◌>>=◌,
  ◌>>◌, pure, fail, fail_if, transact, insert_row,
}
use roambench.ControlPlane.Interactions.{
  validate_response, Request, to_respond, is_due, get_interaction, close_interaction, insert_audit,
  insert_outbox,
}

-- `expireInteractionTx`: the expired row, `none` where it was no longer open.
unfoldable pub expire_interaction : (ℕ → Text) → ℕ → Text → Interaction → Tx (Option Interaction)
expire_interaction ids now user r = do
  affected ← close_interaction expired (codes "expire") now user r.request_id r.row_version
  if not (affected == 1) then pure none else do
    insert_audit (ids 0) user r.request_id EventType.expired (codes "expiry_worker")
        (codes "Interaction reached expiresAt.") now
    insert_outbox (ids 1) user r.request_id EventType.expired (of_expiry r.request_id r.expires_at)
        now
    r' ← get_interaction user r.request_id
    pure (some r')

-- The input with its texts trimmed, as `Respond` goes on with it.
abbrev pub trimmed : RespondInput → RespondInput
trimmed i = record i {
  action = trim_space i.action;
  actor = trim_space i.actor;
  device_id = trim_space i.device_id;
  idempotency_key = trim_space i.idempotency_key;
}

-- `hashResponseInput` digests a copy with the selected options in order.
abbrev pub respond_request : Text → RespondInput → Request
respond_request id i =
    to_respond id (record i { selected_option_ids = sort_strings i.selected_option_ids })

abbrev pub actor_scope : RespondInput → Text
actor_scope i = i.actor ++ codes ":" ++ i.device_id

-- The answer that is stored.
abbrev pub new_response : (ℕ → Text) → ℕ → Text → Interaction → RespondInput → Response
new_response ids now user r i = record {
  response_id = ids 0;
  request_id = r.request_id;
  username = user;
  checkpoint_id = r.checkpoint_id;
  input = i;
  created_at = now;
}

-- `INSERT INTO responses`: the ids are unique, and so are the interactions that are answered.
unfoldable pub insert_response : Response → Tx ⊤
insert_response p db =
    let clash = λ (a b : Response).
      text_eq a.response_id b.response_id || text_eq a.request_id b.request_id in
    elim (insert_row clash conflict p db.responses) [
      | err x ↦ err x
      | ok t ↦ ok (tt, record db { responses = t })
    ]

unfoldable pub insert_decision : Decision → Tx ⊤
insert_decision d db =
    let clash = λ (a b : Decision).
      text_eq a.decision_id b.decision_id
      || text_eq a.request_id b.request_id
      || text_eq a.response_id b.response_id in
    elim (insert_row clash storage d db.decisions) [
      | err x ↦ err x
      | ok t ↦ ok (tt, record db { decisions = t })
    ]

abbrev pub at_key : Text → Text → Text → ResponseKey → Bool
at_key user scope key k =
    text_eq k.username user && text_eq k.actor_scope scope && text_eq k.key key

unfoldable pub insert_response_key : ResponseKey → Tx ⊤
insert_response_key k db =
    elim (insert_row (λ a b. at_key a.username a.actor_scope a.key b) conflict k db.response_keys) [
      | err x ↦ err x
      | ok t ↦ ok (tt, record db { response_keys = t })
    ]

unfoldable pub insert_projection : Projection → Tx ⊤
insert_projection p db =
    let clash = λ (a b : Projection).
      text_eq a.decision_id b.decision_id || text_eq a.response_id b.response_id in
    elim (insert_row clash storage p db.projections) [
      | err x ↦ err x
      | ok t ↦ ok (tt, record db { projections = t })
    ]

-- The rows that an answer adds beside itself.
abbrev pub new_decision : (ℕ → Text) → ℕ → Response → Decision
new_decision ids now p = record {
  decision_id = ids 1;
  request_id = p.request_id;
  response_id = p.response_id;
  action = p.input.action;
  actor = p.input.actor;
  input_hash = p.input.input_hash;
  created_at = now;
}

abbrev pub new_key : Text → ℕ → Text → Response → ResponseKey
new_key hash now user p = record {
  username = user;
  actor_scope = actor_scope p.input;
  key = p.input.idempotency_key;
  request_hash = hash;
  response_id = p.response_id;
  created_at = now;
}

-- The projection takes the id of the response for its `decision_id`.
abbrev pub new_projection : ℕ → Text → Response → Projection
new_projection now user p = record {
  decision_id = p.response_id;
  username = user;
  request_id = p.request_id;
  response_id = p.response_id;
  state = ProjectionState.pending;
  attempt_count = 0;
  last_error = [];
  created_at = now;
  updated_at = now;
}

-- The writes of an answer that is accepted, in their order.
unfoldable pub store_response : Text → (ℕ → Text) → ℕ → Text → Response → Tx Response
store_response hash ids now user p = do
  insert_response p
  insert_decision (new_decision ids now p)
  affected ←
      close_interaction resolved p.input.action now user p.request_id p.input.expected_row_version
  fail_if (not (affected == 1)) conflict
  insert_response_key (new_key hash now user p)
  insert_projection (new_projection now user p)
  insert_audit (ids 2) user p.request_id EventType.resolved p.input.actor p.input.action now
  insert_outbox (ids 3) user p.request_id EventType.resolved (of_response p) now
  insert_outbox (ids 4) user p.request_id EventType.decision_ready (of_response p) now
  insert_outbox (ids 5) user p.request_id EventType.projection_requested
      (of_decision p.response_id p.response_id) now
  pure p

-- What `Respond` checks of the interaction before it writes.
unfoldable pub accepts : Interaction → RespondInput → Result ⊤
accepts r i =
    if not (is_pending r.status) || not (r.row_version == i.expected_row_version)
    then err conflict
    else if not (text_eq i.input_hash r.input_hash)
    then err conflict
    else if not (validate_response r i)
    then err validation
    else ok tt

-- `Respond` behind the lookup of the idempotency key. An interaction that is due is expired, which
-- commits, and the answer is refused.
unfoldable pub respond_new :
    Text → (ℕ → Text) → ℕ → Text → Text → RespondInput → Tx (Result (Response × Bool))
respond_new hash ids now user id i = do
  r ← get_interaction user id
  let overdue = expire_interaction ids now user r >> pure (err conflict)
  let answered = store_response hash ids now user (new_response ids now user r i)
  if is_pending r.status && is_due now r
      then overdue
      else elim (accepts r i) [ err e ↦ fail e | ok _ ↦ answered >>= λ p. pure (ok (p, false)) ]

-- `getResponse`.
abbrev pub get_response : Text → Text → Db → Result Response
get_response user id db =
    elim (find (λ p. text_eq p.username user && text_eq p.response_id id) db.responses) [
      | none ↦ err not_found
      | some p ↦ ok p
    ]

-- `Respond`: the answer and whether it is a replay, or an error; and the tables.
unfoldable pub respond :
    (Request → Text)
    → (ℕ → Text)
    → ℕ
    → Text
    → Text
    → RespondInput
    → Db
    → Result (Response × Bool) × Db
respond digest ids now user id input db =
    let user' = trim_space user in
    let id' = trim_space id in
    let i = trimmed input in
    let hash = digest (respond_request id' i) in
    if is_empty i.actor || is_empty i.idempotency_key || ltb i.expected_row_version 1
    then (err validation, db)
    else elim (find (at_key user' (actor_scope i) i.idempotency_key) db.response_keys) [
      | some k ↦ if not (text_eq k.request_hash hash) then (err conflict, db) else (
        elim (get_response user' k.response_id db) [ err e ↦ err e | ok p ↦ ok (p, true) ],
        db,
      )
      | none ↦ transact (respond_new hash ids now user' id' i) db
    ]
