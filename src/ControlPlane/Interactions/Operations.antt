-- ===== src/ControlPlane/Interactions/Operations.antt =====
-- Each operation of internal/controlplane/repository.go and the rows of the interactions.
use roambench.Base.{
  ℕ, suc, refl, Bool, false, ◌&&◌, ◌||◌, not, inl, inr, Option, some, none, List, [], ◌∷◌, ◌++◌,
  arith, if◌then◌else◌, any, find, Bool-cases, Option-cases, ltb,
}
use roambench.Base.Text.{Text, codes, text_eq, is_empty, trim_space}
use roambench.ControlPlane.Errors.{Result, ok, err, conflict}
use roambench.ControlPlane.Db.{
  is_pending, Interaction, RespondInput, Response, EventType, of_interaction, create_op, cancel_op,
  Db, Tx, ◌>>=◌, ◌>>◌, pure, fail,
}
use roambench.ControlPlane.Interactions.{
  CreateInput, validate_create, Request, to_cancel, is_due, get_interaction, insert_audit,
  insert_outbox,
}
use mathlib.Core.Bool.{xor}
use roambench.ControlPlane.Interactions.Respond.{
  respond_request, expire_interaction, trimmed, new_response, store_response, accepts, respond_new,
  respond,
}
use roambench.ControlPlane.Interactions.Close.{
  CancelInput, replay_post, store_post, cancel_open, cancel_interaction, expire_rows, expire_due,
  due_rows, cancel_row, cancel_rows, cancel_session, session_rows,
}
use roambench.ControlPlane.Interactions.Create.{
  same_vendor, same_interaction, new_interaction, remember, opened, reopened, insert_interaction,
  create_interaction, hardened, create_request,
}
use roambench.ControlPlane.Interactions.Lifecycle.{
  IsSound, Follows, Follows-refl, Follows-trans, eq→Follows, Keeps, Keeps-bind, Keeps-pure,
  transact-Follows,
}
use roambench.ControlPlane.Interactions.Statements.{
  insert_audit-Keeps, insert_outbox-Keeps, fail-Keeps, replay_post-Keeps, store_post-Keeps,
  if-Keeps, store_response-Keeps, expire_interaction-Keeps, cancel_row-Keeps, cancel_open-Keeps,
  get_interaction-Keeps,
}

respond_new-Keeps :
    (hash : Text) (ids : ℕ → Text) (now : ℕ) (user id : Text) (i : RespondInput)
    → Keeps (respond_new hash ids now user id i)
unfolding respond_new
respond_new-Keeps hash ids now user id i =
    Keeps-bind (get_interaction user id) _ (get_interaction-Keeps user id) λ r.
      if-Keeps (is_pending r.status && is_due now r) _ _
        (Keeps-bind (expire_interaction ids now user r) _ (expire_interaction-Keeps ids now user r)
          λ _. Keeps-pure (err conflict))
        (elim (accepts r i)
          as (λ a. Keeps {A = Result (Response × Bool)} (elim a [
            | err e ↦ fail e
            | ok _ ↦ store_response hash ids now user (new_response ids now user r i) >>= λ p.
                pure (ok (p, false))
          ])) [
            | err e ↦ fail-Keeps e
            | ok _ ↦
                Keeps-bind (store_response hash ids now user (new_response ids now user r i)) _
                  (store_response-Keeps hash ids now user (new_response ids now user r i))
                  λ p. Keeps-pure {A = Result (Response × Bool)} (ok (p, false))
          ])

pub respond-Follows :
    (digest : Request → Text) (ids : ℕ → Text) (now : ℕ) (user id : Text) (i : RespondInput)
    (db : Db)
    → Follows db.interactions (respond digest ids now user id i db).1.interactions
unfolding respond
respond-Follows digest ids now user id i db =
    let i' = trimmed i in
    let hash = digest (respond_request (trim_space id) i') in
    let run =
      transact-Follows (respond_new hash ids now (trim_space user) (trim_space id) i') db
        (respond_new-Keeps hash ids now (trim_space user) (trim_space id) i') in
    ground (arith, run, Follows-refl db.interactions)

-- One answer for several cases.
option-Keeps :
    {A B : Type 0} (o : Option A) (f : A → Tx B) (n : Tx B)
    → ((a : A) → Keeps (f a))
    → Keeps n
    → Keeps (elim o [ some a ↦ f a | none ↦ n ])
option-Keeps none f n h k = k
option-Keeps (some a) f n h k = h a

pub cancel_interaction-Follows :
    (digest : Request → Text) (ids : ℕ → Text) (now : ℕ) (user id : Text) (i : CancelInput)
    (db : Db)
    → Follows db.interactions (cancel_interaction digest ids now user id i db).1.interactions
unfolding cancel_interaction
cancel_interaction-Follows digest ids now user id i db =
    let user' = trim_space user in
    let id' = trim_space id in
    let reason = trim_space i.reason in
    let scope = trim_space i.actor_scope in
    let key = trim_space i.idempotency_key in
    let hash = digest (to_cancel id' i.expected_row_version reason) in
    let save = λ (r : Interaction).
      let done : Tx (Result Interaction) = pure (ok r) in
      if is_empty key then done else store_post user' scope cancel_op key hash r now >> done in
    let save-k : (r : Interaction) → Keeps (save r) = λ r.
      if-Keeps (is_empty key) _ _ (Keeps-pure (ok r)) (
        Keeps-bind (store_post user' scope cancel_op key hash r now) _
          (store_post-Keeps user' scope cancel_op key hash r now) λ _. Keeps-pure (ok r)) in
    let open_one = cancel_open ids now user' id' i.expected_row_version reason in
    let fresh : Tx (Result Interaction) = open_one >>= save in
    let fresh-k : Keeps fresh =
      Keeps-bind open_one save (cancel_open-Keeps ids now user' id' i.expected_row_version reason)
        save-k in
    let keyed-k =
      Keeps-bind (replay_post user' scope cancel_op key hash)
        (λ found. elim found [ some r ↦ pure (ok r) | none ↦ fresh ])
        (replay_post-Keeps user' scope cancel_op key hash)
        (λ found. option-Keeps found (λ r. pure (ok r)) fresh (λ r. Keeps-pure (ok r)) fresh-k) in
    let run = transact-Follows _ db (if-Keeps (is_empty key) fresh _ fresh-k keyed-k) in
    let stay = Follows-refl db.interactions in
    elim (Bool-cases (ltb i.expected_row_version 1)) [
      | inl bad ↦ rw bad stay
      | inr good ↦ elim (Bool-cases (xor (is_empty scope) (is_empty key))) [
        | inl half ↦ rw (good, half) stay
        | inr whole ↦ rw (good, whole) run
      ]
    ]

expire_rows-Keeps :
    (ids : ℕ → ℕ → Text) (now : ℕ) (user : Text) (rs : List Interaction)
    → Keeps (expire_rows ids now user rs)
unfolding expire_rows
expire_rows-Keeps ids now user [] = Keeps-pure []
expire_rows-Keeps ids now user (r ∷ rs) =
    Keeps-bind (expire_interaction (ids 0) now user r) _
      (expire_interaction-Keeps (ids 0) now user r)
      λ done.
        Keeps-bind (expire_rows (λ i. ids (suc i)) now user rs) _
          (expire_rows-Keeps (λ i. ids (suc i)) now user rs)
          λ rest. Keeps-pure (elim done [ some r' ↦ r' ∷ rest | none ↦ rest ])

cancel_rows-Keeps :
    (ids : ℕ → ℕ → Text) (now : ℕ) (user session reason : Text) (rs : List Interaction)
    → Keeps (cancel_rows ids now user session reason rs)
unfolding cancel_rows
cancel_rows-Keeps ids now user session reason [] = Keeps-pure []
cancel_rows-Keeps ids now user session reason (r ∷ rs) =
    Keeps-bind (cancel_row (ids 0) now user session reason r) _
      (cancel_row-Keeps (ids 0) now user session reason r)
      λ done.
        Keeps-bind (cancel_rows (λ i. ids (suc i)) now user session reason rs) _
          (cancel_rows-Keeps (λ i. ids (suc i)) now user session reason rs)
          λ rest. Keeps-pure (elim done [ some r' ↦ r' ∷ rest | none ↦ rest ])

pub expire_due-Follows :
    (ids : ℕ → ℕ → Text) (now : ℕ) (user : Text) (db : Db)
    → Follows db.interactions (expire_due ids now user db).1.interactions
unfolding expire_due
expire_due-Follows ids now user db =
    let user' = trim_space user in
    let rows = due_rows now user' db in
    let run =
      transact-Follows {A = List Interaction}
        (expire_rows ids now user' rows >>= λ rs. pure (ok rs)) db
        (Keeps-bind (expire_rows ids now user' rows) _ (expire_rows-Keeps ids now user' rows)
          λ rs. Keeps-pure (ok rs)) in
    elim (Bool-cases (is_empty user')) [
      | inl bad ↦ rw bad (Follows-refl db.interactions)
      | inr good ↦ rw good run
    ]

pub cancel_session-Follows :
    (ids : ℕ → ℕ → Text) (now : ℕ) (user session reason : Text) (db : Db)
    → Follows db.interactions (cancel_session ids now user session reason db).1.interactions
unfolding cancel_session
cancel_session-Follows ids now user session reason db =
    let user' = trim_space user in
    let session' = trim_space session in
    let rows = session_rows user' session' db in
    let m = cancel_rows ids now user' session' (trim_space reason) rows in
    let run = transact-Follows {A = List Interaction} (m >>= λ rs. pure (ok rs)) db (
      Keeps-bind m _ (cancel_rows-Keeps ids now user' session' (trim_space reason) rows)
        λ rs. Keeps-pure (ok rs)) in
    elim (Bool-cases (is_empty user' || is_empty session')) [
      | inl bad ↦ rw bad (Follows-refl db.interactions)
      | inr good ↦ rw good run
    ]

remember-Keeps :
    (scope key hash : Text) (r : Interaction) (now : ℕ) → Keeps (remember scope key hash r now)
unfolding remember
remember-Keeps scope key hash r now db db' a e = elim (Bool-cases (is_empty key)) [
  | inl absent ↦ eq→Follows db db' (ground arith)
  | inr present ↦ store_post-Keeps r.username scope create_op key hash r now db db' a (ground arith)
]

-- A new row behind the others.
Follows-snoc : (rs : List Interaction) (r : Interaction) → IsSound r → Follows rs (rs ++ r ∷ [])
Follows-snoc [] r h = (h, tt)
Follows-snoc (x ∷ rs) r h = (inl refl, Follows-snoc rs r h)

opened-Keeps :
    (ids : ℕ → Text) (now : ℕ) (scope key hash : Text) (r : Interaction)
    → Keeps (opened ids now scope key hash r)
unfolding opened
opened-Keeps ids now scope key hash r =
    Keeps-bind
      (insert_audit (ids 1) r.username r.request_id EventType.created (codes "adapter") r.summary
        now)
      _
      (insert_audit-Keeps (ids 1) r.username r.request_id EventType.created (codes "adapter")
        r.summary now)
      λ _.
        Keeps-bind
          (insert_outbox (ids 2) r.username r.request_id EventType.created (of_interaction r) now) _
          (insert_outbox-Keeps (ids 2) r.username r.request_id EventType.created (of_interaction r)
            now)
          λ _.
            Keeps-bind (remember scope key hash r now) _ (remember-Keeps scope key hash r now)
              λ _. Keeps-pure (ok r)

reopened-Keeps :
    (now : ℕ) (scope key hash : Text) (r : Interaction) → Keeps (reopened now scope key hash r)
unfolding reopened
reopened-Keeps now scope key hash r db db' a e =
    elim (Option-cases (find (same_vendor r) db.interactions)) [
      | inl missing ↦ absurd (ground arith)
      | inr (old, found) ↦ elim (Bool-cases (text_eq old.input_hash r.input_hash)) [
        | inr other ↦ absurd (ground arith)
        | inl same ↦
            Keeps-bind (remember scope key hash old now) (λ _. pure (ok old))
              (remember-Keeps scope key hash old now) (λ _. Keeps-pure (ok old)) db db' a
              (ground arith)
      ]
    ]

insert_interaction-Keeps :
    (ids : ℕ → Text) (now : ℕ) (scope key hash : Text) (r : Interaction)
    → IsSound r
    → Keeps (insert_interaction ids now scope key hash r)
unfolding insert_interaction
insert_interaction-Keeps ids now scope key hash r h db db' a e =
    let grown = db.interactions ++ r ∷ [] in
    elim (Bool-cases (any (same_interaction r) db.interactions)) [
      | inl clash ↦ reopened-Keeps now scope key hash r db db' a (ground arith)
      | inr free ↦
          let later =
            opened-Keeps ids now scope key hash r (record db { interactions = grown }) db' a
              (ground arith) in
          Follows-trans db.interactions grown db'.interactions (Follows-snoc db.interactions r h)
            later
    ]

pub create_interaction-Follows :
    (digest : Request → Text) (ids : ℕ → Text) (now : ℕ) (i : CreateInput) (db : Db)
    → Follows db.interactions (create_interaction digest ids now i db).1.interactions
unfolding create_interaction
create_interaction-Follows digest ids now input db =
    let i = hardened input in
    let scope = trim_space i.actor_scope in
    let key = trim_space i.idempotency_key in
    let r = new_interaction (ids 0) now i in
    let hash = digest (create_request r) in
    let fresh = insert_interaction ids now scope key hash r in
    let fresh-k : Keeps fresh =
      insert_interaction-Keeps ids now scope key hash r (inl (refl, refl, refl, refl)) in
    let keyed-k =
      Keeps-bind (replay_post r.username scope create_op key hash)
        (λ found. elim found [ some old ↦ pure (ok old) | none ↦ fresh ])
        (replay_post-Keeps r.username scope create_op key hash)
        (λ found.
          option-Keeps found (λ old. pure (ok old)) fresh (λ old. Keeps-pure (ok old)) fresh-k) in
    let run = transact-Follows _ db (if-Keeps (is_empty key) fresh _ fresh-k keyed-k) in
    let stay = Follows-refl db.interactions in
    elim (Bool-cases (not (validate_create i))) [
      | inl bad ↦ rw bad stay
      | inr good ↦ elim (Bool-cases (xor (is_empty scope) (is_empty key))) [
        | inl half ↦ rw (good, half) stay
        | inr whole ↦ rw (good, whole) run
      ]
    ]
