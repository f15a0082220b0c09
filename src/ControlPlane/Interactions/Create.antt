-- ===== src/ControlPlane/Interactions/Create.antt =====
-- Opening an interaction: `CreateInteraction` of internal/controlplane/repository.go.
use roambench.Base.{
  ℕ, ⊤, Bool, ◌&&◌, ◌||◌, not, some, none, [], ◌∷◌, ◌++◌, if◌then◌else◌, any, find, filter,
}
use roambench.Base.Text.{Text, codes, text_eq, is_empty, trim_space}
use roambench.ControlPlane.Errors.{Result, ok, err, conflict, validation}
use roambench.ControlPlane.Risk.{normalize_risk_class, is_high_risk}
use roambench.ControlPlane.Db.{
  pending, Interaction, EventType, of_interaction, create_op, Db, Tx, ◌>>=◌, ◌>>◌, pure, transact,
}
use roambench.ControlPlane.Interactions.{
  normalized_strings, CreateInput, approve_session, validate_create, Request, to_create,
  insert_audit, insert_outbox,
}
use mathlib.Core.Bool.{xor}
use roambench.ControlPlane.Interactions.Close.{replay_post, store_post}

-- The input with its risk class in the runtime's words, and without session-wide approval where the risk is
-- high.
unfoldable pub hardened : CreateInput → CreateInput
hardened input =
    let i = record input { risk_class = normalize_risk_class input.risk_class } in
    let actions =
      filter (λ a. not (text_eq a approve_session)) (normalized_strings i.allowed_actions) in
    if is_high_risk i.risk_class then record i { allowed_actions = actions } else i

-- The row that is inserted.
abbrev pub new_interaction : Text → ℕ → CreateInput → Interaction
new_interaction id now i = record {
  request_id = id;
  username = trim_space i.username;
  checkpoint_id = trim_space i.checkpoint_id;
  task_id = trim_space i.task_id;
  runtime_id = trim_space i.runtime_id;
  session_id = trim_space i.session_id;
  adapter_kind = trim_space i.adapter_kind;
  vendor_request_id = trim_space i.vendor_request_id;
  request_kind = trim_space i.request_kind;
  risk_class = trim_space i.risk_class;
  title = trim_space i.title;
  summary = trim_space i.summary;
  preview = trim_space i.preview;
  artifact_refs = i.artifact_refs;
  allowed_actions = normalized_strings i.allowed_actions;
  response_schema = i.response_schema;
  ui_hints = i.ui_hints;
  status = pending;
  final_action = [];
  created_at = now;
  expires_at = i.expires_at;
  resolved_at = 0;
  row_version = 1;
  input_hash = trim_space i.input_hash;
}

-- `hashCreateInteractionInput` digests the fields that come from the input: not the id, the user and
-- what later changes.
abbrev pub create_request : Interaction → Request
create_request r = to_create (record r { request_id = []; username = []; created_at = 0 })

-- Rows with one vendor request.
abbrev pub same_vendor : Interaction → Interaction → Bool
same_vendor a b =
    text_eq a.username b.username
    && text_eq a.adapter_kind b.adapter_kind
    && text_eq a.session_id b.session_id
    && text_eq a.vendor_request_id b.vendor_request_id

-- The three unique keys of `interactions`; an empty checkpoint is NULL, which clashes with nothing.
unfoldable pub same_interaction : Interaction → Interaction → Bool
same_interaction a b =
    text_eq a.request_id b.request_id
    || same_vendor a b
    || (not (is_empty a.checkpoint_id)
        && text_eq a.username b.username
        && text_eq a.checkpoint_id b.checkpoint_id)

-- `if idempotencyKey != "" { storePostIdempotency }`.
unfoldable pub remember : Text → Text → Text → Interaction → ℕ → Tx ⊤
remember scope key hash r now db =
    if is_empty key then ok (tt, db) else store_post r.username scope create_op key hash r now db

-- The row went in.
unfoldable pub opened : (ℕ → Text) → ℕ → Text → Text → Text → Interaction → Tx (Result Interaction)
opened ids now scope key hash r = do
  insert_audit (ids 1) r.username r.request_id EventType.created (codes "adapter") r.summary now
  insert_outbox (ids 2) r.username r.request_id EventType.created (of_interaction r) now
  remember scope key hash r now
  pure (ok r)

-- The row did not go in: the row of the same vendor request is returned if it has the same input.
unfoldable pub reopened : ℕ → Text → Text → Text → Interaction → Tx (Result Interaction)
reopened now scope key hash r db = elim (find (same_vendor r) db.interactions) [
  | none ↦ err conflict
  | some old ↦
      if text_eq old.input_hash r.input_hash
      then (remember scope key hash old now >> pure (ok old)) db
      else err conflict
]

unfoldable pub insert_interaction :
    (ℕ → Text) → ℕ → Text → Text → Text → Interaction → Tx (Result Interaction)
insert_interaction ids now scope key hash r db =
    if any (same_interaction r) db.interactions
    then reopened now scope key hash r db
    else opened ids now scope key hash r (record db { interactions = db.interactions ++ r ∷ [] })

-- `CreateInteraction`.
unfoldable pub create_interaction :
    (Request → Text) → (ℕ → Text) → ℕ → CreateInput → Db → Result Interaction × Db
create_interaction digest ids now input db =
    let i = hardened input in
    let scope = trim_space i.actor_scope in
    let key = trim_space i.idempotency_key in
    let r = new_interaction (ids 0) now i in
    let hash = digest (create_request r) in
    let fresh = insert_interaction ids now scope key hash r in
    let keyed : Tx (Result Interaction) =
      replay_post r.username scope create_op key hash >>= λ found. elim found [
        | some old ↦ pure (ok old)
        | none ↦ fresh
      ] in
    if not (validate_create i)
    then (err validation, db)
    else if xor (is_empty scope) (is_empty key)
    then (err validation, db)
    else transact (if is_empty key then fresh else keyed) db
