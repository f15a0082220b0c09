-- ===== src/ControlPlane/Migration/Statements.antt =====
-- The statements `INSERT OR IGNORE` of internal/controlplane/migration.go, with the foreign keys that they
-- do not pass over.
use roambench.Base.{◌&&◌, ◌||◌, [], ◌∷◌, ◌++◌, any, ⊤, if◌then◌else◌}
use roambench.Base.Text.{text_eq}
use roambench.ControlPlane.Errors.{ok, err, storage}
use roambench.ControlPlane.Db.{Response, Decision, AuditEvent, OutboxEvent, Projection, Tx}
use roambench.ControlPlane.Migration.{has_interaction, has_response}

-- `INSERT OR IGNORE INTO outbox_events`.
unfoldable pub add_message : OutboxEvent → Tx ⊤
add_message e db =
    if any (λ m. text_eq m.event_id e.event_id) db.outbox_events
    then ok (tt, db)
    else if has_interaction e.aggregate_id db
    then ok (tt, record db { outbox_events = db.outbox_events ++ e ∷ [] })
    else err storage

-- `INSERT OR IGNORE INTO responses`.
unfoldable pub add_response : Response → Tx ⊤
add_response p db =
    if any (λ q. text_eq q.response_id p.response_id || text_eq q.request_id p.request_id)
      db.responses
    then ok (tt, db)
    else ok (tt, record db { responses = db.responses ++ p ∷ [] })

-- `INSERT OR IGNORE INTO decisions`.
unfoldable pub add_decision : Decision → Tx ⊤
add_decision d db =
    if any
      (λ e.
        text_eq e.decision_id d.decision_id
        || text_eq e.request_id d.request_id
        || text_eq e.response_id d.response_id)
      db.decisions
    then ok (tt, db)
    else if has_response d.response_id db
    then ok (tt, record db { decisions = db.decisions ++ d ∷ [] })
    else err storage

-- `INSERT OR IGNORE INTO task_projections`.
unfoldable pub add_projection : Projection → Tx ⊤
add_projection p db =
    if any (λ q. text_eq q.decision_id p.decision_id || text_eq q.response_id p.response_id)
      db.projections
    then ok (tt, db)
    else if has_interaction p.request_id db && has_response p.response_id db
    then ok (tt, record db { projections = db.projections ++ p ∷ [] })
    else err storage

-- `INSERT OR IGNORE INTO audit_events`.
unfoldable pub add_audit : AuditEvent → Tx ⊤
add_audit e db =
    if any (λ a. text_eq a.event_id e.event_id) db.audit_events
    then ok (tt, db)
    else if has_interaction e.request_id db
    then ok (tt, record db { audit_events = db.audit_events ++ e ∷ [] })
    else err storage
