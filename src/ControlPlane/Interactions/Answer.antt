-- ===== src/ControlPlane/Interactions/Answer.antt =====
-- What a stored answer leaves in the tables.
use roambench.Base.{
  ℕ, ◌≡◌, sym, ap, ◌∙◌, Bool, true, false, ◌&&◌, ◌||◌, inl, inr, some, [], ◌∷◌, ◌++◌, map, arith,
  if◌then◌else◌, any, find, count, Bool-cases, Option-cases,
}
use roambench.Base.Text.{Text, text_eq, text_eq_iff}
use roambench.ControlPlane.Errors.{Result-cases, ok}
use roambench.ControlPlane.Db.{
  resolved, is_pending, Interaction, RespondInput, Response, EventType, AuditEvent, Payload,
  of_response, of_decision, OutboxEvent, Db,
}
use roambench.ControlPlane.Interactions.{
  validate_response, is_due, at_request, is_open_at, close_row, close_interaction, insert_audit,
  insert_outbox,
}
use roambench.ControlPlane.Interactions.Respond.{
  new_response, insert_response, insert_decision, insert_response_key, insert_projection,
  new_decision, new_key, new_projection, store_response, accepts, respond_new,
}

abbrev event_of : Text → Text → Text → EventType → Text → Text → ℕ → AuditEvent
event_of event user id type actor detail now = record {
  event_id = event;
  username = user;
  request_id = id;
  event_type = type;
  actor = actor;
  detail = detail;
  created_at = now;
}

abbrev message_of : Text → Text → Text → EventType → Payload → ℕ → OutboxEvent
message_of event user id type payload now = record {
  event_id = event;
  username = user;
  aggregate_id = id;
  event_type = type;
  payload = payload;
  created_at = now;
}

-- The tables after an answer: one row each more, three messages, and the interaction closed.
abbrev pub answered : Text → (ℕ → Text) → ℕ → Text → Response → Db → Db
answered hash ids now user p db = record db {
  interactions =
      map
        (λ r.
          if is_open_at user p.request_id p.input.expected_row_version r
          then close_row resolved p.input.action now r
          else r)
        db.interactions;
  responses = db.responses ++ p ∷ [];
  decisions = db.decisions ++ new_decision ids now p ∷ [];
  audit_events =
      db.audit_events
      ++ event_of (ids 2) user p.request_id EventType.resolved p.input.actor p.input.action now
        ∷ [];
  outbox_events =
      ((db.outbox_events
          ++ message_of (ids 3) user p.request_id EventType.resolved (of_response p) now ∷ [])
        ++ message_of (ids 4) user p.request_id EventType.decision_ready (of_response p) now ∷ [])
      ++ message_of (ids 5) user p.request_id EventType.projection_requested
          (of_decision p.response_id p.response_id) now
        ∷ [];
  response_keys = db.response_keys ++ new_key hash now user p ∷ [];
  projections = db.projections ++ new_projection now user p ∷ [];
}

abbrev pub response_clash : Response → Response → Bool
response_clash a b = text_eq a.response_id b.response_id || text_eq a.request_id b.request_id

pub store_response-ok :
    (hash : Text) (ids : ℕ → Text) (now : ℕ) (user : Text) (p q : Response) (db db' : Db)
    → store_response hash ids now user p db ≡ ok (q, db')
    → (q ≡ p)
      × (db' ≡ answered hash ids now user p db)
      × (count (is_open_at user p.request_id p.input.expected_row_version) db.interactions ≡ 1)
      × (any (response_clash p) db.responses ≡ false)
unfolding store_response insert_response insert_decision close_interaction insert_response_key
    insert_projection insert_audit insert_outbox
store_response-ok hash ids now user p q db db' e = ground arith

-- What an answer that is stored was checked against, and what it leaves.
pub record IsAnswer (hash : Text) (ids : ℕ → Text) (now : ℕ) (user id : Text) (i : RespondInput)
    (p : Response) (db db' : Db) (r : Interaction) : Type 0 where
  pub found : find (at_request user id) db.interactions ≡ some r
  pub open_row : is_pending r.status ≡ true
  pub in_time : is_due now r ≡ false
  pub version : r.row_version ≡ i.expected_row_version
  pub same_input : i.input_hash ≡ r.input_hash
  pub admitted : validate_response r i ≡ true
  pub answer : p ≡ new_response ids now user r i
  pub tables : db' ≡ answered hash ids now user p db
  pub one_row : count (is_open_at user p.request_id i.expected_row_version) db.interactions ≡ 1
  pub new_id : any (response_clash p) db.responses ≡ false

accepts-ok :
    (r : Interaction) (i : RespondInput)
    → accepts r i ≡ ok tt
    → (is_pending r.status ≡ true)
      × (r.row_version ≡ i.expected_row_version)
      × (i.input_hash ≡ r.input_hash)
      × (validate_response r i ≡ true)
unfolding accepts
accepts-ok r i e = ground (arith, text_eq_iff i.input_hash r.input_hash)

pub respond_new-ok :
    (hash : Text) (ids : ℕ → Text) (now : ℕ) (user id : Text) (i : RespondInput) (p : Response)
    (b : Bool) (db db' : Db)
    → respond_new hash ids now user id i db ≡ ok (ok (p, b), db')
    → (b ≡ false) × ((r : Interaction) × IsAnswer hash ids now user id i p db db' r)
unfolding respond_new
respond_new-ok hash ids now user id i p b db db' e =
    elim (Option-cases (find (at_request user id) db.interactions)) [
      | inl missing ↦ absurd (ground arith)
      | inr (r, found) ↦ elim (Bool-cases (is_pending r.status && is_due now r)) [
        | inl overdue ↦ absurd (ground arith)
        | inr in_time ↦ elim (Result-cases (accepts r i)) [
          | inr (x, refused) ↦ absurd (ground arith)
          | inl (_, taken) ↦
              elim (Result-cases
                (store_response hash ids now user (new_response ids now user r i) db)) [
                  | inr (x, broken) ↦ absurd (ground arith)
                  | inl ((q, d), stored) ↦
                      let k =
                        store_response-ok hash ids now user (new_response ids now user r i) q db d
                          stored in
                      let c = accepts-ok r i (ground arith) in
                      let out : (b ≡ false) × (p ≡ q) × (db' ≡ d) = ground arith in
                      let same = out.1 ∙ k.0 in
                      (
                        out.0,
                        (
                          r,
                          record {
                            found = found;
                            open_row = c.0;
                            in_time = ground arith;
                            version = c.1;
                            same_input = c.2;
                            admitted = c.3;
                            answer = same;
                            tables =
                                out.2 ∙ k.1 ∙ ap (λ z. answered hash ids now user z db) (sym same);
                            one_row = rw same k.2;
                            new_id = rw same k.3;
                          },
                        ),
                      )
                ]
        ]
      ]
    ]
