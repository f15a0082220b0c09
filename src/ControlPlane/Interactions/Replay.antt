-- ===== src/ControlPlane/Interactions/Replay.antt =====
-- Idempotency keys of answers: a call that is sent again.
use roambench.Base.{
  find-snoc, ℕ, ◌<◌, ◌≡◌, ◌≢◌, refl, ap, Bool, true, false, ◌&&◌, inl, inr, some, none, List, [],
  ◌∷◌, ◌++◌, arith, any, find, Option-cases,
}
use roambench.Base.Text.{Text, text_eq, text_eq_iff, text_eq_refl, text_eq_sym, trim_space}
use roambench.ControlPlane.Errors.{Result-cases, Result, ok, err, conflict}
use roambench.ControlPlane.Db.{Interaction, RespondInput, Response, ResponseKey, Db, Tx, transact}
use roambench.ControlPlane.Interactions.{Request}
use roambench.ControlPlane.Interactions.Respond.{
  trimmed, respond_request, actor_scope, at_key, new_key, respond_new, get_response, respond,
}
use roambench.ControlPlane.Interactions.Answer.{response_clash, IsAnswer, respond_new-ok}

find_by_id :
    (user : Text) (p : Response) (t : List Response)
    → any (response_clash p) t ≡ false
    → find (λ q. text_eq q.username user && text_eq q.response_id p.response_id) t ≡ none
find_by_id user p [] h = refl
find_by_id user p (q ∷ t) h =
    let ih = find_by_id user p t (ground arith) in
    ground (arith, text_eq_sym p.response_id q.response_id)

transact-ok :
    {A : Type 0} (m : Tx (Result A)) (db db' : Db) (a : A)
    → transact m db ≡ (ok a, db')
    → m db ≡ ok (ok a, db')
transact-ok m db db' a e = elim (Result-cases (m db)) [
  | inl ((r, d), k) ↦ ground arith
  | inr (x, k) ↦ absurd (ground arith)
]

module _ (digest : Request → Text) (user id : Text) (input : RespondInput) where
  abbrev pub hash_of : Text
  hash_of = digest (respond_request (trim_space id) (trimmed input))

  abbrev call : (ℕ → Text) → ℕ → Tx (Result (Response × Bool))
  call ids now = respond_new hash_of ids now (trim_space user) (trim_space id) (trimmed input)

  abbrev at_own_key : ResponseKey → Bool
  at_own_key =
      at_key (trim_space user) (actor_scope (trimmed input)) (trim_space input.idempotency_key)

  -- An answer that succeeds as a new one found no row under its idempotency key and met an interaction
  -- that was open, at the version that it expects, not due, with the same input hash, and whose
  -- rules admit it. What it left is that interaction closed, and one row more in each table of answers.
  pub respond-ok :
      (ids : ℕ → Text) (now : ℕ) (p : Response) (db db' : Db)
      → respond digest ids now user id input db ≡ (ok (p, false), db')
      → (find at_own_key db.response_keys ≡ none)
        × ((r : Interaction) × IsAnswer hash_of ids now
              (trim_space user)
              (trim_space id)
              (trimmed input)
              p
              db
              db'
              r)
  unfolding respond
  respond-ok ids now p db db' e = elim (Option-cases (find at_own_key db.response_keys)) [
    | inr (k, found) ↦ absurd (ground arith)
    | inl fresh ↦
        let done : transact (call ids now) db ≡ (ok (p, false), db') = ground arith in
        (
          fresh,
          (respond_new-ok hash_of ids now (trim_space user) (trim_space id) (trimmed input) p false
              db db' (transact-ok (call ids now) db db' (p, false) done)).1,
        )
  ]

  -- The key and the answer that a stored answer leaves are found again.
  stored_key :
      (ids : ℕ → Text) (now : ℕ) (p : Response) (db db' : Db) (r : Interaction)
      → find at_own_key db.response_keys ≡ none
      → IsAnswer hash_of ids now (trim_space user) (trim_space id) (trimmed input) p db db' r
      → (find at_own_key db'.response_keys ≡ some (new_key hash_of now (trim_space user) p))
        × (get_response (trim_space user) p.response_id db' ≡ ok p)
  stored_key ids now p db db' r fresh a =
      let keys : db'.response_keys
          ≡ db.response_keys ++ new_key hash_of now (trim_space user) p ∷ [] =
        ap (λ d. d.response_keys) a.tables in
      let rows : db'.responses ≡ db.responses ++ p ∷ [] = ap (λ d. d.responses) a.tables in
      let input_is : p.input ≡ trimmed input = ap (λ q. q.input) a.answer in
      let user_is : p.username ≡ trim_space user = ap (λ q. q.username) a.answer in
      let own : at_own_key (new_key hash_of now (trim_space user) p) ≡ true =
        rw input_is (simp text_eq_refl) in
      let last =
        find-snoc _ db.responses p (find_by_id (trim_space user) p db.responses a.new_id)
          (simp (user_is, text_eq_refl)) in
      (
        rw keys (find-snoc at_own_key db.response_keys _ fresh own),
        rw rows (rw (last, get_response)),
      )

  -- A call that is sent again after its answer was stored, at any later time, is answered by the same
  -- response, marked as a replay, and changes nothing.
  pub respond_again :
      (ids ids' : ℕ → Text) (now later : ℕ) (p : Response) (db db' : Db)
      → respond digest ids now user id input db ≡ (ok (p, false), db')
      → respond digest ids' later user id input db' ≡ (ok (p, true), db')
  unfolding respond
  respond_again ids ids' now later p db db' e =
      let (fresh, (r, a)) = respond-ok ids now p db db' e in
      let (key, row) = stored_key ids now p db db' r fresh a in
      ground (arith, key, row, text_eq_refl hash_of)

-- An idempotency key that was used is not taken for another request: a second call by the same actor
-- and device under the same key, whose digest differs, is refused and changes nothing.
pub respond_key_reused :
    (digest : Request → Text) (user id id' : Text) (input input' : RespondInput)
    (ids ids' : ℕ → Text) (now later : ℕ) (p : Response) (db db' : Db)
    → respond digest ids now user id input db ≡ (ok (p, false), db')
    → trim_space input'.actor ≡ trim_space input.actor
    → trim_space input'.device_id ≡ trim_space input.device_id
    → trim_space input'.idempotency_key ≡ trim_space input.idempotency_key
    → hash_of digest user id input ≢ hash_of digest user id' input'
    → 0 < input'.expected_row_version
    → respond digest ids' later user id' input' db' ≡ (err conflict, db')
unfolding respond
respond_key_reused digest user id id' input input' ids ids' now later p db db' e a d k h v =
    let (fresh, (r, ans)) = respond-ok digest user id input ids now p db db' e in
    let (key, row) = stored_key digest user id input ids now p db db' r fresh ans in
    ground (arith, key, text_eq_iff (hash_of digest user id input) (hash_of digest user id' input'))
