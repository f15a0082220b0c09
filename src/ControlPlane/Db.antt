-- ===== src/ControlPlane/Db.antt =====
-- The tables of interactions and what hangs on them: the types and the schema of
-- internal/controlplane/repository.go, and its transactions. Each table is the list of its rows in
-- insertion order. Times are nanoseconds since the zero `time.Time`, and 0 stands for NULL. JSON
-- columns hold the value that they encode. Rows are never deleted, and the operations of
-- repository.go insert a row that refers to an interaction only where that interaction was found,
-- so their foreign keys always hold; the import in Migration tests them.
use roambench.Base.{ℕ, Bool, true, false, List, [], ◌∷◌, ◌++◌, any, ⊤, if◌then◌else◌}
use roambench.Base.Text.{Text}
use roambench.ControlPlane.Errors.{Error, Result, ok, err}

pub data Status : Type 0 where
  pending resolved expired cancelled : Status

abbrev pub is_pending : Status → Bool
is_pending pending = true
is_pending resolved = false
is_pending expired = false
is_pending cancelled = false

-- Negative bounds act as 0 in the code.
pub record ResponseSchema : Type 0 where
  pub kind : Text
  pub options : List (Text × Text)
  pub min_selections : ℕ
  pub max_selections : ℕ
  pub max_feedback_length : ℕ
  pub allow_custom_text : Bool

-- A row of `interactions`.
pub record Interaction : Type 0 where
  pub request_id : Text
  pub username : Text
  pub checkpoint_id : Text
  pub task_id : Text
  pub runtime_id : Text
  pub session_id : Text
  pub adapter_kind : Text
  pub vendor_request_id : Text
  pub request_kind : Text
  pub risk_class : Text
  pub title : Text
  pub summary : Text
  pub preview : Text
  pub artifact_refs : List Text
  pub allowed_actions : List Text
  pub response_schema : ResponseSchema
  pub ui_hints : Text
  pub status : Status
  pub final_action : Text
  pub created_at : ℕ
  pub expires_at : ℕ
  pub resolved_at : ℕ
  pub row_version : ℕ
  pub input_hash : Text

pub record RespondInput : Type 0 where
  pub action : Text
  pub selected_option_ids : List Text
  pub feedback : Text
  pub actor : Text
  pub device_id : Text
  pub auth_evidence : Text
  pub expected_row_version : ℕ
  pub idempotency_key : Text
  pub input_hash : Text

-- A row of `responses`; `input` holds what was answered.
pub record Response : Type 0 where
  pub response_id : Text
  pub request_id : Text
  pub username : Text
  pub checkpoint_id : Text
  pub input : RespondInput
  pub created_at : ℕ

pub record Decision : Type 0 where
  pub decision_id : Text
  pub request_id : Text
  pub response_id : Text
  pub action : Text
  pub actor : Text
  pub input_hash : Text
  pub created_at : ℕ

pub data EventType : Type 0 where
  created resolved cancelled expired updated decision_ready projection_requested : EventType
  recorded : Text → EventType

pub record AuditEvent : Type 0 where
  pub event_id : Text
  pub username : Text
  pub request_id : Text
  pub event_type : EventType
  pub actor : Text
  pub detail : Text
  pub created_at : ℕ

pub data Payload : Type 0 where
  of_interaction : Interaction → Payload
  of_response : Response → Payload
  of_decision : Text → Text → Payload
  of_reason : Text → Payload
  of_session : Text → Text → Payload
  of_expiry : Text → ℕ → Payload
  of_import : Text → Payload
  of_reimport : Text → Status → ℕ → Payload

pub record OutboxEvent : Type 0 where
  pub event_id : Text
  pub username : Text
  pub aggregate_id : Text
  pub event_type : EventType
  pub payload : Payload
  pub created_at : ℕ

-- A row of `idempotency_keys`.
pub record ResponseKey : Type 0 where
  pub username : Text
  pub actor_scope : Text
  pub key : Text
  pub request_hash : Text
  pub response_id : Text
  pub created_at : ℕ

pub data Operation : Type 0 where
  create_op cancel_op : Operation

abbrev pub op_eq : Operation → Operation → Bool
op_eq create_op create_op = true
op_eq create_op cancel_op = false
op_eq cancel_op create_op = false
op_eq cancel_op cancel_op = true

-- A row of `post_idempotency_keys`.
pub record PostKey : Type 0 where
  pub username : Text
  pub actor_scope : Text
  pub operation : Operation
  pub key : Text
  pub request_hash : Text
  pub result : Interaction
  pub created_at : ℕ

pub data ProjectionState : Type 0 where
  pending applied failed : ProjectionState

-- A row of `task_projections`.
pub record Projection : Type 0 where
  pub decision_id : Text
  pub username : Text
  pub request_id : Text
  pub response_id : Text
  pub state : ProjectionState
  pub attempt_count : ℕ
  pub last_error : Text
  pub created_at : ℕ
  pub updated_at : ℕ

pub record Db : Type 0 where
  pub interactions : List Interaction
  pub responses : List Response
  pub decisions : List Decision
  pub audit_events : List AuditEvent
  pub outbox_events : List OutboxEvent
  pub response_keys : List ResponseKey
  pub post_keys : List PostKey
  pub projections : List Projection

-- A statement, or several, inside a transaction.
abbrev pub Tx : Type 0 → Type 0
Tx A = Db → Result (A × Db)

infixl 5 ◌>>=◌ ◌>>◌
abbrev pub ◌>>=◌ : {A B : Type 0} → Tx A → (A → Tx B) → Tx B
◌>>=◌ m f db = elim (m db) [ err e ↦ err e | ok (a, db') ↦ f a db' ]

abbrev pub ◌>>◌ : {A B : Type 0} → Tx A → Tx B → Tx B
m >> k = m >>= λ _. k

abbrev pub pure : {A : Type 0} → A → Tx A
pure a db = ok (a, db)

abbrev pub fail : {A : Type 0} → Error → Tx A
fail e db = err e

abbrev pub fail_if : Bool → Error → Tx ⊤
fail_if true e db = err e
fail_if false e db = ok (tt, db)

-- A transaction: an error rolls back; otherwise it commits and the result is returned, which may be an
-- error itself.
abbrev pub transact : {A : Type 0} → Tx (Result A) → Db → Result A × Db
transact m db = elim (m db) [ err e ↦ (err e, db) | ok (r, db') ↦ (r, db') ]

-- A row is inserted where it clashes with none.
abbrev pub insert_row : {A : Type 0} → (A → A → Bool) → Error → A → List A → Result (List A)
insert_row clash e r t = if any (clash r) t then err e else ok (t ++ r ∷ [])
