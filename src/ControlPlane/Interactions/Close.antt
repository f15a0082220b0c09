-- ===== src/ControlPlane/Interactions/Close.antt =====
-- Ending an interaction without an answer: `CancelInteractionIdempotent`, `ExpireDueInteractions` and
-- `CancelPendingInteractionsForSession` of internal/controlplane/repository.go.
use roambench.Base.{
  ℕ, suc, ⊤, Bool, ◌&&◌, ◌||◌, not, Option, some, none, List, [], ◌∷◌, if◌then◌else◌, find, filter,
  ltb, ◌==◌,
}
use roambench.Base.Text.{Text, codes, text_eq, is_empty, trim_space}
use roambench.ControlPlane.Errors.{Result, ok, err, conflict, validation, storage}
use roambench.ControlPlane.Db.{
  cancelled, is_pending, Interaction, EventType, of_reason, of_session, Operation, cancel_op, op_eq,
  PostKey, Db, Tx, ◌>>=◌, ◌>>◌, pure, fail_if, transact, insert_row,
}
use roambench.ControlPlane.Interactions.{
  Request, to_cancel, is_due, get_interaction, close_interaction, insert_audit, insert_outbox,
}
use mathlib.Core.Bool.{xor}
use roambench.ControlPlane.Interactions.Respond.{expire_interaction}

abbrev pub at_post_key : Text → Text → Operation → Text → PostKey → Bool
at_post_key user scope op key k =
    text_eq k.username user
    && text_eq k.actor_scope scope
    && op_eq k.operation op
    && text_eq k.key key

-- `replayPostIdempotency`: nothing stored, the stored result, or ErrConflict.
unfoldable pub replay_post : Text → Text → Operation → Text → Text → Tx (Option Interaction)
replay_post user scope op key hash db = elim (find (at_post_key user scope op key) db.post_keys) [
  | none ↦ ok (none, db)
  | some k ↦ if not (text_eq k.request_hash hash) then err conflict else ok (some k.result, db)
]

-- `storePostIdempotency`.
unfoldable pub store_post : Text → Text → Operation → Text → Text → Interaction → ℕ → Tx ⊤
store_post user scope op key hash r now db =
    let k : PostKey = record {
      username = user;
      actor_scope = scope;
      operation = op;
      key = key;
      request_hash = hash;
      result = r;
      created_at = now;
    } in
    elim (insert_row (λ a b. at_post_key a.username a.actor_scope a.operation a.key b) storage k
      db.post_keys) [ err x ↦ err x | ok t ↦ ok (tt, record db { post_keys = t }) ]

-- CancelInteractionInput.
pub record CancelInput : Type 0 where
  pub expected_row_version : ℕ
  pub reason : Text
  pub actor_scope : Text
  pub idempotency_key : Text

-- The update of a cancellation, with its events: the cancelled row.
unfoldable pub cancel_open : (ℕ → Text) → ℕ → Text → Text → ℕ → Text → Tx Interaction
cancel_open ids now user id version reason = do
  affected ← close_interaction cancelled (codes "cancel") now user id version
  fail_if (not (affected == 1)) conflict
  insert_audit (ids 0) user id EventType.cancelled (codes "adapter") reason now
  insert_outbox (ids 1) user id EventType.cancelled (of_reason reason) now
  get_interaction user id

-- `CancelInteractionIdempotent`; `CancelInteraction` gives it no scope and no key.
unfoldable pub cancel_interaction :
    (Request → Text) → (ℕ → Text) → ℕ → Text → Text → CancelInput → Db → Result Interaction × Db
cancel_interaction digest ids now user id input db =
    let user' = trim_space user in
    let id' = trim_space id in
    let reason = trim_space input.reason in
    let scope = trim_space input.actor_scope in
    let key = trim_space input.idempotency_key in
    let hash = digest (to_cancel id' input.expected_row_version reason) in
    let fresh : Tx (Result Interaction) =
      cancel_open ids now user' id' input.expected_row_version reason >>= λ r.
      if is_empty key
      then pure (ok r)
      else store_post user' scope cancel_op key hash r now >> pure (ok r) in
    let keyed : Tx (Result Interaction) = replay_post user' scope cancel_op key hash >>= λ found.
    elim found [ some r ↦ pure (ok r) | none ↦ fresh ] in
    if ltb input.expected_row_version 1
    then (err validation, db)
    else if xor (is_empty scope) (is_empty key)
    then (err validation, db)
    else transact (if is_empty key then fresh else keyed) db

-- The loop over the rows that are due.
unfoldable pub expire_rows : (ℕ → ℕ → Text) → ℕ → Text → List Interaction → Tx (List Interaction)
expire_rows ids now user [] = pure []
expire_rows ids now user (r ∷ rs) = expire_interaction (ids 0) now user r >>= λ done.
    expire_rows (λ i. ids (suc i)) now user rs >>= λ rest.
    pure (elim done [ some r' ↦ r' ∷ rest | none ↦ rest ])

-- The open rows of a user that are due. The query orders them by the text of `created_at`; rows are
-- taken in the order of the table here.
abbrev pub due_rows : ℕ → Text → Db → List Interaction
due_rows now user db =
    filter (λ r. text_eq r.username user && is_pending r.status && is_due now r) db.interactions

-- `ExpireDueInteractions`.
unfoldable pub expire_due : (ℕ → ℕ → Text) → ℕ → Text → Db → Result (List Interaction) × Db
expire_due ids now user db =
    let user' = trim_space user in
    if is_empty user'
    then (err validation, db)
    else transact (expire_rows ids now user' (due_rows now user' db) >>= λ rs. pure (ok rs)) db

-- One round of the loop of `CancelPendingInteractionsForSession`.
unfoldable pub cancel_row :
    (ℕ → Text) → ℕ → Text → Text → Text → Interaction → Tx (Option Interaction)
cancel_row ids now user session reason r = do
  affected ← close_interaction cancelled (codes "cancel") now user r.request_id r.row_version
  if not (affected == 1) then pure none else do
    insert_audit (ids 0) user r.request_id EventType.cancelled (codes "session_lifecycle") reason
        now
    insert_outbox (ids 1) user r.request_id EventType.cancelled (of_session reason session) now
    r' ← get_interaction user r.request_id
    pure (some r')

unfoldable pub cancel_rows :
    (ℕ → ℕ → Text) → ℕ → Text → Text → Text → List Interaction → Tx (List Interaction)
cancel_rows ids now user session reason [] = pure []
cancel_rows ids now user session reason (r ∷ rs) =
    cancel_row (ids 0) now user session reason r >>= λ done.
    cancel_rows (λ i. ids (suc i)) now user session reason rs >>= λ rest.
    pure (elim done [ some r' ↦ r' ∷ rest | none ↦ rest ])

-- The open rows of a session.
abbrev pub session_rows : Text → Text → Db → List Interaction
session_rows user session db =
    filter (λ r. text_eq r.username user && text_eq r.session_id session && is_pending r.status)
      db.interactions

-- `CancelPendingInteractionsForSession`.
unfoldable pub cancel_session :
    (ℕ → ℕ → Text) → ℕ → Text → Text → Text → Db → Result (List Interaction) × Db
cancel_session ids now user session reason db =
    let user' = trim_space user in
    let session' = trim_space session in
    if is_empty user' || is_empty session'
    then (err validation, db)
    else transact
        (cancel_rows ids now user' session' (trim_space reason) (session_rows user' session' db)
          >>= λ rs. pure (ok rs))
        db
