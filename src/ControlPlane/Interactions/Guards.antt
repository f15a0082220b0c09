-- ===== src/ControlPlane/Interactions/Guards.antt =====
-- What an answer is refused for, and what a refusal leaves.
use roambench.Base.{
  ℕ, ◌≡◌, ◌≢◌, refl, sym, ap, subst, ◌∙◌, true, false, ◌&&◌, ◌||◌, ◌⊎◌, inl, inr, Option, some,
  List, [], ◌∷◌, map, arith, if◌then◌else◌, find, Bool-cases, Option-cases, ltb,
}
use roambench.Base.Text.{Text, text_eq_iff, is_empty, trim_space}
use roambench.ControlPlane.Errors.{Result-cases, Error, ok, err, conflict}
use roambench.ControlPlane.Risk.{is_high_risk}
use roambench.ControlPlane.Db.{resolved, is_pending, Interaction, RespondInput, Response, Db}
use roambench.ControlPlane.Interactions.{
  approve_session, validate_response, Request, is_due, at_request, is_open_at, close_row,
  close_interaction, insert_audit, insert_outbox,
}
use mathlib.Core.Option.{some-injective}
use roambench.ControlPlane.Interactions.Respond.{
  expire_interaction, trimmed, actor_scope, at_key, new_response, store_response, accepts,
  respond_new, respond,
}
use roambench.ControlPlane.Interactions.Replay.{respond-ok, hash_of}

-- A pending interaction that is due, as it was found.
abbrev pub IsOverdue : ℕ → Text → Text → Db → Type 0
IsOverdue now user id db =
    (r : Interaction) × (find (at_request user id) db.interactions ≡ some r)
    × (is_pending r.status ≡ true)
    × (is_due now r ≡ true)

-- The tables that an answer writes are the same.
abbrev pub SameAnswers : Db → Db → Type 0
SameAnswers db db' =
    (db'.responses ≡ db.responses)
    × (db'.decisions ≡ db.decisions)
    × (db'.response_keys ≡ db.response_keys)
    × (db'.projections ≡ db.projections)

expire_interaction-SameAnswers :
    (ids : ℕ → Text) (now : ℕ) (user : Text) (r : Interaction) (db db' : Db)
    (o : Option Interaction)
    → expire_interaction ids now user r db ≡ ok (o, db')
    → SameAnswers db db'
unfolding expire_interaction close_interaction insert_audit insert_outbox
expire_interaction-SameAnswers ids now user r db db' o e = ground arith

respond_new-err :
    (hash : Text) (ids : ℕ → Text) (now : ℕ) (user id : Text) (i : RespondInput) (db db' : Db)
    (x : Error)
    → respond_new hash ids now user id i db ≡ ok (err x, db')
    → (x ≡ conflict) × IsOverdue now user id db × SameAnswers db db'
unfolding respond_new
respond_new-err hash ids now user id i db db' x e =
    elim (Option-cases (find (at_request user id) db.interactions)) [
      | inl missing ↦ absurd (ground arith)
      | inr (r, found) ↦ elim (Bool-cases (is_pending r.status && is_due now r)) [
        | inl overdue ↦ elim (Result-cases (expire_interaction ids now user r db)) [
          | inr (y, k) ↦ absurd (ground arith)
          | inl ((o, d), k) ↦
              let same = expire_interaction-SameAnswers ids now user r db d o k in
              let q : db' ≡ d = ground arith in
              (ground arith, (r, found, ground arith, ground arith), rw q same)
        ]
        | inr in_time ↦ elim (Result-cases (accepts r i)) [
          | inr (y, refused) ↦ absurd (ground arith)
          | inl (_, taken) ↦
              elim (Result-cases
                (store_response hash ids now user (new_response ids now user r i) db)) [
                  | inr (y, broken) ↦ absurd (ground arith)
                  | inl ((q, d), stored) ↦ absurd (ground arith)
                ]
        ]
      ]
    ]

-- An answer that is refused changes nothing, but for one case: the interaction was still pending and its
-- time had passed. Then the error is ErrConflict and no answer, decision, key or projection was
-- added.
pub respond_refused :
    (digest : Request → Text) (ids : ℕ → Text) (now : ℕ) (user id : Text) (i : RespondInput)
    (db db' : Db) (x : Error)
    → respond digest ids now user id i db ≡ (err x, db')
    → (db' ≡ db)
      ⊎ ((x ≡ conflict) × IsOverdue now (trim_space user) (trim_space id) db × SameAnswers db db')
unfolding respond
respond_refused digest ids now user id i db db' x e =
    let t = trimmed i in
    let m = respond_new (hash_of digest user id i) ids now (trim_space user) (trim_space id) t in
    let key = at_key (trim_space user) (actor_scope t) t.idempotency_key in
    elim (Bool-cases
      (is_empty t.actor || is_empty t.idempotency_key || ltb t.expected_row_version 1)) [
        | inl bad ↦ inl (ground arith)
        | inr good ↦ elim (Option-cases (find key db.response_keys)) [
          | inr (k, known) ↦ inl (ground arith)
          | inl fresh ↦ elim (Result-cases (m db)) [
            | inr (y, k) ↦ inl (ground arith)
            | inl ((ok a, d), k) ↦ inl (ground arith)
            | inl ((err y, d), k) ↦
                let h =
                  respond_new-err (hash_of digest user id i) ids now (trim_space user)
                    (trim_space id) t db d y k in
                let same : (y ≡ x) × (d ≡ db') = ground arith in
                inr (sym same.0 ∙ h.0, h.1, subst (SameAnswers db) same.1 h.2)
          ]
        ]
      ]

-- On a request of high risk no answer approves the whole session, whatever actions the request allows.
pub respond-high_risk :
    (digest : Request → Text) (ids : ℕ → Text) (now : ℕ) (user id : Text) (i : RespondInput)
    (p : Response) (db db' : Db) (r : Interaction)
    → respond digest ids now user id i db ≡ (ok (p, false), db')
    → find (at_request (trim_space user) (trim_space id)) db.interactions ≡ some r
    → is_high_risk r.risk_class ≡ true
    → p.input.action ≢ approve_session
unfolding validate_response
respond-high_risk digest ids now user id i p db db' r e found high approve =
    let (fresh, (s, a)) = respond-ok digest user id i ids now p db db' e in
    let q : r ≡ s = some-injective r s (sym found ∙ a.found) in
    let risky : is_high_risk s.risk_class ≡ true =
      subst (λ z. is_high_risk z.risk_class ≡ true) q high in
    let act : trim_space i.action ≡ approve_session =
      sym (ap (λ z. z.input.action) a.answer) ∙ approve in
    let fits = a.admitted in ground (arith, text_eq_iff (trim_space i.action) approve_session)

find-close :
    (user id : Text) (version : ℕ) (f : Interaction → Interaction) (rs : List Interaction)
    (r : Interaction)
    → ((x : Interaction) → at_request user id (f x) ≡ at_request user id x)
    → find (at_request user id) rs ≡ some r
    → is_open_at user id version r ≡ true
    → find (at_request user id) (map (λ x. if is_open_at user id version x then f x else x) rs)
      ≡ some (f r)
find-close user id version f [] r k e o = cc
find-close user id version f (x ∷ rs) r k e o = elim (Bool-cases (at_request user id x)) [
  | inl hit ↦
      let q : x ≡ r = ground arith in
      let o' : is_open_at user id version x ≡ true =
        subst (λ z. is_open_at user id version z ≡ true) (sym q) o in
      let hit' : at_request user id (f x) ≡ true = k x ∙ hit in
      rw o' (rw hit' (ap (λ z. some (f z)) q))
  | inr miss ↦
      let o' : is_open_at user id version x ≡ false = ground arith in
      rw o' (rw miss (find-close user id version f rs r k (ground arith) o))
]

find-at :
    (user id : Text) (rs : List Interaction) (r : Interaction)
    → find (at_request user id) rs ≡ some r
    → at_request user id r ≡ true
find-at user id [] r e = cc
find-at user id (x ∷ rs) r e = elim (Bool-cases (at_request user id x)) [
  | inl hit ↦ let q : x ≡ r = ground arith in subst (λ z. at_request user id z ≡ true) q hit
  | inr miss ↦ find-at user id rs r (ground arith)
]

-- An answer that is stored is found as the decision of its interaction: the row that was read is closed
-- as resolved, with the action that was answered, at the next version.
pub respond-resolves :
    (digest : Request → Text) (ids : ℕ → Text) (now : ℕ) (user id : Text) (i : RespondInput)
    (p : Response) (db db' : Db)
    → respond digest ids now user id i db ≡ (ok (p, false), db')
    → (r : Interaction) × (find (at_request (trim_space user) (trim_space id)) db.interactions
        ≡ some r)
      × (find (at_request (trim_space user) (trim_space id)) db'.interactions
          ≡ some (close_row resolved p.input.action now r))
respond-resolves digest ids now user id i p db db' e =
    let user' = trim_space user in
    let id' = trim_space id in
    let (fresh, (r, a)) = respond-ok digest user id i ids now p db db' e in
    let f = close_row resolved p.input.action now in
    let at = find-at user' id' db.interactions r a.found in
    let same : p.request_id ≡ id' =
      ap (λ z. z.request_id) a.answer ∙ (text_eq_iff r.request_id id').0 (ground arith) in
    let version : p.input.expected_row_version ≡ i.expected_row_version =
      ap (λ z. z.input.expected_row_version) a.answer in
    let rows : db'.interactions
        ≡ map (λ x. if is_open_at user' p.request_id p.input.expected_row_version x then f x else x)
            db.interactions =
      ap (λ z. z.interactions) a.tables in
    let open_now : is_open_at user' id' i.expected_row_version r ≡ true =
      ground (arith, a.open_row, a.version) in
    (
      r,
      a.found,
      rw (rows, same, version)
          (find-close user' id' i.expected_row_version f db.interactions r (λ x. refl) a.found
            open_now),
    )
