-- ===== src/ControlPlane/Interactions/Statements.antt =====
-- Each statement of the transactions and the rows of the interactions.
use roambench.Base.{ℕ, suc, refl, Bool, true, false, not, some, none, arith, if◌then◌else◌, ◌==◌}
use roambench.Base.Text.{Text, codes}
use roambench.ControlPlane.Errors.{Error, conflict}
use roambench.ControlPlane.Db.{
  resolved, expired, cancelled, Interaction, Response, Decision, EventType, Payload, of_response,
  of_decision, of_reason, of_session, of_expiry, ResponseKey, Operation, Projection, Tx, ◌>>=◌,
  ◌>>◌, pure, fail, fail_if,
}
use roambench.ControlPlane.Interactions.{
  get_interaction, close_interaction, insert_audit, insert_outbox,
}
use roambench.ControlPlane.Interactions.Respond.{
  expire_interaction, insert_response, insert_decision, insert_response_key, insert_projection,
  new_decision, new_key, new_projection, store_response,
}
use roambench.ControlPlane.Interactions.Close.{replay_post, store_post, cancel_open, cancel_row}
use roambench.ControlPlane.Interactions.Lifecycle.{
  Keeps, Keeps-bind, Keeps-pure, eq→Follows, close_interaction-Keeps,
}

pub get_interaction-Keeps : (user id : Text) → Keeps (get_interaction user id)
get_interaction-Keeps user id db db' r e = eq→Follows db db' (ground arith)

pub insert_audit-Keeps :
    (event user id : Text) (type : EventType) (actor detail : Text) (now : ℕ)
    → Keeps (insert_audit event user id type actor detail now)
unfolding insert_audit
insert_audit-Keeps event user id type actor detail now db db' a e = eq→Follows db db' (ground arith)

pub insert_outbox-Keeps :
    (event user id : Text) (type : EventType) (payload : Payload) (now : ℕ)
    → Keeps (insert_outbox event user id type payload now)
unfolding insert_outbox
insert_outbox-Keeps event user id type payload now db db' a e = eq→Follows db db' (ground arith)

pub fail_if-Keeps : (b : Bool) (x : Error) → Keeps (fail_if b x)
fail_if-Keeps b x db db' a e = eq→Follows db db' (ground arith)

pub fail-Keeps : {A : Type 0} (x : Error) → Keeps (fail {A = A} x)
fail-Keeps x db db' a e = absurd (ground arith)

insert_response-Keeps : (p : Response) → Keeps (insert_response p)
unfolding insert_response
insert_response-Keeps p db db' a e = eq→Follows db db' (ground arith)

insert_decision-Keeps : (d : Decision) → Keeps (insert_decision d)
unfolding insert_decision
insert_decision-Keeps d db db' a e = eq→Follows db db' (ground arith)

insert_response_key-Keeps : (k : ResponseKey) → Keeps (insert_response_key k)
unfolding insert_response_key
insert_response_key-Keeps k db db' a e = eq→Follows db db' (ground arith)

insert_projection-Keeps : (p : Projection) → Keeps (insert_projection p)
unfolding insert_projection
insert_projection-Keeps p db db' a e = eq→Follows db db' (ground arith)

pub replay_post-Keeps :
    (user scope : Text) (op : Operation) (key hash : Text)
    → Keeps (replay_post user scope op key hash)
unfolding replay_post
replay_post-Keeps user scope op key hash db db' a e = eq→Follows db db' (ground arith)

pub store_post-Keeps :
    (user scope : Text) (op : Operation) (key hash : Text) (r : Interaction) (now : ℕ)
    → Keeps (store_post user scope op key hash r now)
unfolding store_post
store_post-Keeps user scope op key hash r now db db' a e = eq→Follows db db' (ground arith)

pub if-Keeps : {A : Type 0} (b : Bool) (m n : Tx A) → Keeps m → Keeps n → Keeps (if b then m else n)
if-Keeps true m n h k = h
if-Keeps false m n h k = k

-- The audit entry and the message that follow every closing.
pub events-Keeps :
    {A : Type 0} (ids : ℕ → Text) (user id : Text) (type : EventType) (actor detail : Text)
    (payload : Payload) (now : ℕ) (rest : Tx A)
    → Keeps rest
    → Keeps (
        insert_audit (ids 0) user id type actor detail now
        >> (insert_outbox (ids 1) user id type payload now >> rest))
events-Keeps ids user id type actor detail payload now rest h =
    Keeps-bind (insert_audit (ids 0) user id type actor detail now) _
      (insert_audit-Keeps (ids 0) user id type actor detail now)
      λ _.
        Keeps-bind (insert_outbox (ids 1) user id type payload now) _
          (insert_outbox-Keeps (ids 1) user id type payload now) λ _. h

-- Reading the closed row back.
read_back-Keeps : (user id : Text) → Keeps (get_interaction user id >>= λ r. pure (some r))
read_back-Keeps user id =
    Keeps-bind (get_interaction user id) _ (get_interaction-Keeps user id) λ r. Keeps-pure (some r)

pub store_response-Keeps :
    (hash : Text) (ids : ℕ → Text) (now : ℕ) (user : Text) (p : Response)
    → Keeps (store_response hash ids now user p)
unfolding store_response
store_response-Keeps hash ids now user p =
    let id = p.request_id in
    let i = p.input in
    Keeps-bind (insert_response p) _ (insert_response-Keeps p) λ _.
      Keeps-bind (insert_decision (new_decision ids now p)) _
        (insert_decision-Keeps (new_decision ids now p))
        λ _.
          Keeps-bind (close_interaction resolved i.action now user id i.expected_row_version) _
            (close_interaction-Keeps resolved i.action now user id i.expected_row_version refl)
            λ n.
              Keeps-bind (fail_if (not (n == 1)) conflict) _ (fail_if-Keeps (not (n == 1)) conflict)
                λ _.
                  Keeps-bind (insert_response_key (new_key hash now user p)) _
                    (insert_response_key-Keeps (new_key hash now user p))
                    λ _.
                      Keeps-bind (insert_projection (new_projection now user p)) _
                        (insert_projection-Keeps (new_projection now user p))
                        λ _.
                          events-Keeps (λ k. ids (suc (suc k))) user id EventType.resolved i.actor
                            i.action (of_response p) now _
                            (Keeps-bind
                              (insert_outbox (ids 4) user id EventType.decision_ready
                                (of_response p) now)
                              _
                              (insert_outbox-Keeps (ids 4) user id EventType.decision_ready
                                (of_response p) now)
                              λ _.
                                Keeps-bind
                                  (insert_outbox (ids 5) user id EventType.projection_requested
                                    (of_decision p.response_id p.response_id) now)
                                  _
                                  (insert_outbox-Keeps (ids 5) user id
                                    EventType.projection_requested
                                    (of_decision p.response_id p.response_id) now)
                                  λ _. Keeps-pure p)

pub expire_interaction-Keeps :
    (ids : ℕ → Text) (now : ℕ) (user : Text) (r : Interaction)
    → Keeps (expire_interaction ids now user r)
unfolding expire_interaction
expire_interaction-Keeps ids now user r =
    let id = r.request_id in
    Keeps-bind (close_interaction expired (codes "expire") now user id r.row_version) _
      (close_interaction-Keeps expired (codes "expire") now user id r.row_version refl)
      λ n. if-Keeps (not (n == 1)) (pure none) _ (Keeps-pure none) (
        events-Keeps ids user id EventType.expired (codes "expiry_worker")
          (codes "Interaction reached expiresAt.") (of_expiry id r.expires_at) now _
          (read_back-Keeps user id))

pub cancel_row-Keeps :
    (ids : ℕ → Text) (now : ℕ) (user session reason : Text) (r : Interaction)
    → Keeps (cancel_row ids now user session reason r)
unfolding cancel_row
cancel_row-Keeps ids now user session reason r =
    let id = r.request_id in
    Keeps-bind (close_interaction cancelled (codes "cancel") now user id r.row_version) _
      (close_interaction-Keeps cancelled (codes "cancel") now user id r.row_version refl)
      λ n. if-Keeps (not (n == 1)) (pure none) _ (Keeps-pure none) (
        events-Keeps ids user id EventType.cancelled (codes "session_lifecycle") reason
          (of_session reason session) now _ (read_back-Keeps user id))

pub cancel_open-Keeps :
    (ids : ℕ → Text) (now : ℕ) (user id : Text) (version : ℕ) (reason : Text)
    → Keeps (cancel_open ids now user id version reason)
unfolding cancel_open
cancel_open-Keeps ids now user id version reason =
    Keeps-bind (close_interaction cancelled (codes "cancel") now user id version) _
      (close_interaction-Keeps cancelled (codes "cancel") now user id version refl)
      λ n.
        Keeps-bind (fail_if (not (n == 1)) conflict) _ (fail_if-Keeps (not (n == 1)) conflict) λ _.
          events-Keeps ids user id EventType.cancelled (codes "adapter") reason (of_reason reason)
            now _ (get_interaction-Keeps user id)
