-- ===== src/ControlPlane/Migration/Growth.antt =====
-- Each statement of an import lets the table of interactions grow.
use roambench.Base.{arith}
use roambench.ControlPlane.Db.{Response, Decision, AuditEvent, OutboxEvent, Projection}
use roambench.ControlPlane.Migration.Persists.{LetsGrow, eq→Grows}
use roambench.ControlPlane.Migration.Statements.{
  add_message, add_response, add_decision, add_projection, add_audit,
}

pub add_message-LetsGrow : (e : OutboxEvent) → LetsGrow (add_message e)
unfolding add_message
add_message-LetsGrow e db db' a h = eq→Grows db db' (ground arith)

pub add_response-LetsGrow : (p : Response) → LetsGrow (add_response p)
unfolding add_response
add_response-LetsGrow p db db' a h = eq→Grows db db' (ground arith)

pub add_decision-LetsGrow : (d : Decision) → LetsGrow (add_decision d)
unfolding add_decision
add_decision-LetsGrow d db db' a h = eq→Grows db db' (ground arith)

pub add_projection-LetsGrow : (p : Projection) → LetsGrow (add_projection p)
unfolding add_projection
add_projection-LetsGrow p db db' a h = eq→Grows db db' (ground arith)

pub add_audit-LetsGrow : (e : AuditEvent) → LetsGrow (add_audit e)
unfolding add_audit
add_audit-LetsGrow e db db' a h = eq→Grows db db' (ground arith)
