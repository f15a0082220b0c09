-- ===== src/ControlPlane/Migration/Tests.antt =====
-- An import, a cancellation and another import, and instances of the theorems.
use roambench.Base.{ℕ, ◌≡◌, refl, none, Option, [], ◌∷◌, ◌++◌, map}
use roambench.Base.Text.{Text, codes, text_eq, has_prefix, trim_space, to_lower}
use roambench.ControlPlane.Db.{resolved, pending, Status, Interaction, Db}
use roambench.ControlPlane.Interactions.{
  Request, to_create, to_respond, to_cancel, close_interaction, insert_audit, insert_outbox,
}
use roambench.ControlPlane.Interactions.Close.{cancel_row, cancel_rows, cancel_session}
use roambench.ControlPlane.Interactions.Create.{same_interaction}
use roambench.ControlPlane.Interactions.History.{Step}
use roambench.ControlPlane.Migration.{
  LegacyCheckpoint, Snapshot, legacy_status, legacy_action, is_newer, each,
}
use roambench.ControlPlane.Migration.Persists.{Grows}
use roambench.ControlPlane.Migration.Statements.{
  add_message, add_response, add_decision, add_projection,
}
use roambench.ControlPlane.Migration.Import.{
  normalized_time, imported_row, import_again, import_checkpoint, answer_row, answer_rows,
  resolve_rows, import_decision, import_event, import_all, import_legacy_approvals,
}
use roambench.ControlPlane.Migration.History.{Write, Reach, Reach-Grows}

abbrev empty_db : Db
empty_db = record {
  interactions = [];
  responses = [];
  decisions = [];
  audit_events = [];
  outbox_events = [];
  response_keys = [];
  post_keys = [];
  projections = [];
}

-- A digest that tells the requests below apart.
abbrev digest : Request → Text
digest (to_create r) = 0 ∷ r.title
digest (to_respond id i) = 1 ∷ id ++ i.action
digest (to_cancel id version reason) = 2 ∷ id ++ reason

-- No text is read as a time.
abbrev no_time : Text → Option ℕ
no_time t = none

abbrev one_digit : ℕ → Text
one_digit n = n ∷ []

abbrev waiting : LegacyCheckpoint
waiting = record {
  id = codes "c";
  task_id = codes "t";
  kind = codes "final_acceptance";
  title = codes "Review";
  reason = [];
  status = codes "pending";
  requested_at = [];
  allowed_actions = codes "approve" ∷ [];
  row_version = 1;
  input_hash = codes "h";
}

abbrev first : Snapshot
first = record {
  username = codes "ann";
  source_hash = codes "x";
  checkpoints = waiting ∷ [];
  decisions = [];
  audit_events = [];
}

-- The same checkpoint, still pending but at a later version, and a decision on it.
abbrev second : Snapshot
second = record first {
  checkpoints = record waiting { row_version = 7 } ∷ [];
  decisions =
      record {
        id = codes "d";
        decision_type = codes "checkpoint_Approved";
        actor = codes "human";
        timestamp = [];
        summary = [];
        checkpoint_id = codes "c";
      }
      ∷ [];
}

abbrev imported : Db
imported = (import_legacy_approvals no_time one_digit 5 first empty_db).1

abbrev withdrawn : Db
withdrawn =
    (cancel_session (λ i k. i ∷ k ∷ []) 8 (codes "ann") (codes "project-control") (codes "gone")
      imported).1

abbrev imported_again : Db
imported_again = (import_legacy_approvals no_time one_digit 9 second withdrawn).1

Reach-Grows_example : Grows imported.interactions imported_again.interactions
Reach-Grows_example = Reach-Grows {digest = digest} (
    Reach.next
      (Reach.next Reach.here (
        Write.by_request (
          Step.cancel_all (λ i k. i ∷ k ∷ []) 8 (codes "ann") (codes "project-control")
            (codes "gone") refl)))
      (Write.by_import no_time one_digit 9 second refl))

abbrev summary : Interaction → Status × ℕ × Text
summary r = (r.status, r.row_version, r.final_action)

imported_open : map summary imported.interactions ≡ (pending, 1, []) ∷ []
unfolding import_legacy_approvals import_all import_checkpoint import_event import_again
    imported_row add_message each legacy_status normalized_time same_interaction text_eq trim_space
imported_open = refl

-- The pending checkpoint does not open the cancelled row, and the decision resolves it at its version.
decision_resolves_cancelled :
    map summary imported_again.interactions ≡ (resolved, 2, codes "approve") ∷ []
unfolding import_legacy_approvals import_all import_checkpoint import_event import_again
    imported_row add_message each legacy_status normalized_time same_interaction text_eq trim_space
    is_newer import_decision answer_rows answer_row add_response add_decision resolve_rows
    legacy_action add_projection cancel_session cancel_rows cancel_row close_interaction
    insert_audit insert_outbox to_lower has_prefix
decision_resolves_cancelled = refl
