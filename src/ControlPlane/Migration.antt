-- ===== src/ControlPlane/Migration.antt =====
-- The import of checkpoints and decisions of the project board into the tables of interactions:
-- internal/controlplane/migration.go. It runs at the start and whenever a board is saved. Parsing a
-- time and printing a number are arguments, and so is the clock; the row of legacy_approval_migrations that
-- counts what was imported is left out. `INSERT OR IGNORE` passes over unique keys only: a
-- foreign key that fails is an error, which rolls the whole import back.
pub mod Statements
pub mod Import
pub mod Persists
pub mod Growth
pub mod History
mod Tests
use roambench.Base.{
  ℕ, ◌-◌, ⊤, Bool, true, false, ◌&&◌, ◌||◌, not, Option, none, some, List, [], ◌∷◌, ◌++◌, map, any,
  find, count, ltb, leb, ◌==◌, if◌then◌else◌,
}
use roambench.Base.Text.{Text, codes, text_eq, is_empty, has_prefix, trim_space, to_lower}
use roambench.ControlPlane.Errors.{Result, ok, err, validation, storage}
use roambench.ControlPlane.Db.{
  Status, pending, resolved, expired, cancelled, is_pending, Interaction, Response, Decision,
  EventType, AuditEvent, Payload, of_import, of_reimport, OutboxEvent, ProjectionState, Projection,
  Db, Tx, ◌>>=◌, ◌>>◌, pure, transact,
}
use roambench.ControlPlane.Interactions.{normalized_strings, at_request}
use roambench.ControlPlane.Interactions.Create.{same_interaction}

-- LegacyCheckpoint. A version below 0 acts as 0; the summary of the decision is not read.
pub record LegacyCheckpoint : Type 0 where
  pub id : Text
  pub task_id : Text
  pub kind : Text
  pub title : Text
  pub reason : Text
  pub status : Text
  pub requested_at : Text
  pub allowed_actions : List Text
  pub row_version : ℕ
  pub input_hash : Text

-- LegacyDecision; its task is not read.
pub record LegacyDecision : Type 0 where
  pub id : Text
  pub decision_type : Text
  pub actor : Text
  pub timestamp : Text
  pub summary : Text
  pub checkpoint_id : Text

pub record LegacyAuditEvent : Type 0 where
  pub id : Text
  pub timestamp : Text
  pub actor : Text
  pub action : Text
  pub detail : Text
  pub checkpoint_id : Text

-- LegacyApprovalSnapshot.
pub record Snapshot : Type 0 where
  pub username : Text
  pub source_hash : Text
  pub checkpoints : List LegacyCheckpoint
  pub decisions : List LegacyDecision
  pub audit_events : List LegacyAuditEvent

-- `legacyInteractionStatus`: the status and the final action.
unfoldable pub legacy_status : Text → Status × Text
legacy_status value =
    let v = trim_space value in
    if text_eq v (codes "approved")
    then (resolved, codes "approve")
    else if text_eq v (codes "rejected")
    then (resolved, codes "reject")
    else if text_eq v (codes "rerouted")
    then (resolved, codes "reroute")
    else if text_eq v (codes "expired")
    then (expired, codes "expire")
    else if text_eq v (codes "cancelled")
    then (cancelled, codes "cancel")
    else (pending, [])

-- `strings.Contains`.
unfoldable has_substring : Text → Text → Bool
unfolding has_prefix
has_substring part [] = is_empty part
has_substring part (b ∷ bs) = has_prefix part (b ∷ bs) || has_substring part bs

-- `legacyDecisionAction`.
unfoldable pub legacy_action : Text → Text
unfolding has_substring
legacy_action value =
    let v = trim_space value in
    let w = to_lower v in
    if has_substring (codes "approved") w
    then codes "approve"
    else if has_substring (codes "rejected") w
    then codes "reject"
    else if has_substring (codes "rerouted") w
    then codes "reroute"
    else w

abbrev status_rank : Status → ℕ
status_rank pending = 0
status_rank resolved = 1
status_rank expired = 2
status_rank cancelled = 3

-- `==` on statuses.
abbrev pub same_status : Status → Status → Bool
same_status a b = status_rank a == status_rank b

-- The version of a checkpoint, at least 1.
abbrev pub version_of : LegacyCheckpoint → ℕ
version_of c = if ltb c.row_version 1 then 1 else c.row_version

abbrev project_control : Text
project_control = codes "project-control"

-- `shouldUpdate`, and that a closed row is not opened: the status and the version of the checkpoint, and
-- the row that stands.
unfoldable pub is_newer : Status → ℕ → Interaction → Bool
is_newer status version old =
    (ltb old.row_version version
      || is_pending old.status && not (is_pending status) && leb old.row_version version)
    && not (not (is_pending old.status) && is_pending status)

-- `WHERE username=? AND request_id=? AND status=? AND row_version=?`.
abbrev pub is_unchanged : Text → Interaction → Interaction → Bool
is_unchanged user old r =
    at_request user old.request_id r
    && same_status r.status old.status
    && r.row_version == old.row_version

-- Rows that a foreign key asks for.
abbrev pub has_interaction : Text → Db → Bool
has_interaction id db = any (λ r. text_eq r.request_id id) db.interactions

abbrev pub has_response : Text → Db → Bool
has_response id db = any (λ p. text_eq p.response_id id) db.responses

-- One statement or one row after the other.
unfoldable pub each : {A : Type 0} → (A → Tx ⊤) → List A → Tx ⊤
each f [] = pure tt
each f (x ∷ xs) = f x >> each f xs
