-- ===== src/Auth/Sessions/Revocation.antt =====
-- Which tokens are accepted.
use roambench.Base.{
  ℕ, ◌≡◌, refl, inl, inr, none, some, List, [], ◌∷◌, ◌⊎◌, arith, Bool-cases, Option-cases, ◌∙◌,
  subst,
}
use roambench.Base.Text.{Text, text_eq, text_eq_iff}
use roambench.Auth.Sessions.{
  Entry, Sessions, no_sessions, create_session, validate_session, invalidate_session, cleanup,
}
use roambench.Auth.Sessions.Traces.{Op, create, validate, invalidate, tick, step, run}

-- Somewhere in the run the token was handed out.
abbrev pub IsCreated : Text → List (ℕ × Op) → Type 0
IsCreated token [] = ⊥
IsCreated token ((now, create (some t) user) ∷ ops) = (t ≡ token) ⊎ IsCreated token ops
IsCreated token ((now, create none user) ∷ ops) = IsCreated token ops
IsCreated token ((now, validate t) ∷ ops) = IsCreated token ops
IsCreated token ((now, invalidate t) ∷ ops) = IsCreated token ops
IsCreated token ((now, tick) ∷ ops) = IsCreated token ops

-- It was handed out to this user.
abbrev pub IsCreatedFor : Text → Text → List (ℕ × Op) → Type 0
IsCreatedFor user token [] = ⊥
IsCreatedFor user token ((now, create (some t) u) ∷ ops) =
    ((t ≡ token) × (u ≡ user)) ⊎ IsCreatedFor user token ops
IsCreatedFor user token ((now, create none u) ∷ ops) = IsCreatedFor user token ops
IsCreatedFor user token ((now, validate t) ∷ ops) = IsCreatedFor user token ops
IsCreatedFor user token ((now, invalidate t) ∷ ops) = IsCreatedFor user token ops
IsCreatedFor user token ((now, tick) ∷ ops) = IsCreatedFor user token ops

validate_session-none :
    (timeout now : ℕ) (t k : Text) (m : Sessions)
    → m k ≡ none
    → (validate_session timeout now t m).1 k ≡ none
unfolding validate_session
validate_session-none timeout now t k m e = elim (Option-cases (m t)) [
  | inl missing ↦ ground (arith, text_eq_iff k t)
  | inr (x, found) ↦ ground (arith, text_eq_iff k t)
]

-- An entry that a validation leaves was there, for the same user.
validate_session-some :
    (timeout now : ℕ) (t k : Text) (m : Sessions) (e : Entry)
    → (validate_session timeout now t m).1 k ≡ some e
    → (x : Entry) × (m k ≡ some x) × (x.username ≡ e.username)
unfolding validate_session
validate_session-some timeout now t k m e h = elim (Option-cases (m k)) [
  | inl missing ↦ absurd (ground (arith, validate_session-none timeout now t k m missing))
  | inr (x, found) ↦ (
    x,
    found,
    elim (Option-cases (m t)) [
      | inl missing ↦ ground (arith, text_eq_iff k t)
      | inr (y, there) ↦ ground (arith, text_eq_iff k t)
    ],
  )
]

run-absent :
    (timeout : ℕ) (token : Text) (ops : List (ℕ × Op)) (m : Sessions)
    → m token ≡ none
    → ¬ IsCreated token ops
    → (run timeout ops m).1 token ≡ none
unfolding run step create_session validate_session invalidate_session cleanup
run-absent timeout token [] m e h = e
run-absent timeout token ((now, create none user) ∷ ops) m e h = run-absent timeout token ops m e h
run-absent timeout token ((now, create (some t) user) ∷ ops) m e h =
    run-absent timeout token ops _ (ground (arith, text_eq_iff token t)) (λ c. h (inr c))
run-absent timeout token ((now, validate t) ∷ ops) m e h =
    run-absent timeout token ops _ (validate_session-none timeout now t token m e) h
run-absent timeout token ((now, invalidate t) ∷ ops) m e h =
    run-absent timeout token ops _ (ground arith) h
run-absent timeout token ((now, tick) ∷ ops) m e h = run-absent timeout token ops _ (rw e refl) h

-- A token that was invalidated is refused from then on, whatever happens, until it is drawn again.
pub validate_session-invalidated :
    (timeout now : ℕ) (token : Text) (ops : List (ℕ × Op)) (m : Sessions)
    → ¬ IsCreated token ops
    → (validate_session timeout now token (run timeout ops (invalidate_session token m)).1).0 ≡ none
unfolding validate_session invalidate_session
validate_session-invalidated timeout now token ops m h =
    let gone =
      run-absent timeout token ops (invalidate_session token m)
        (ground (arith, text_eq_iff token token)) h in
    ground arith

-- The entries of a run come from a start or were created in it.
run-created :
    (timeout : ℕ) (token : Text) (ops : List (ℕ × Op)) (m : Sessions) (e : Entry)
    → (run timeout ops m).1 token ≡ some e
    → ((x : Entry) × (m token ≡ some x) × (x.username ≡ e.username))
      ⊎ IsCreatedFor e.username token ops
unfolding run step create_session validate_session invalidate_session cleanup
run-created timeout token [] m e h = inl (e, h, refl)
run-created timeout token ((now, create none user) ∷ ops) m e h =
    run-created timeout token ops m e h
run-created timeout token ((now, create (some t) user) ∷ ops) m e h =
    elim (run-created timeout token ops _ e h) [
      | inl (x, found, name) ↦ elim (Bool-cases (text_eq token t)) [
        | inl same ↦ inr (inl (ground (arith, text_eq_iff token t)))
        | inr other ↦ inl (x, ground arith, name)
      ]
      | inr later ↦ inr (inr later)
    ]
run-created timeout token ((now, validate t) ∷ ops) m e h =
    elim (run-created timeout token ops _ e h) [
      | inl (x, found, name) ↦
          let (y, there, same) = validate_session-some timeout now t token m x found in
          inl (y, there, same ∙ name)
      | inr later ↦ inr later
    ]
run-created timeout token ((now, invalidate t) ∷ ops) m e h =
    elim (run-created timeout token ops _ e h) [
      | inl (x, found, name) ↦ elim (Bool-cases (text_eq token t)) [
        | inl same ↦ absurd (ground arith)
        | inr other ↦ inl (x, ground arith, name)
      ]
      | inr later ↦ inr later
    ]
run-created timeout token ((now, tick) ∷ ops) m e h = elim (run-created timeout token ops _ e h) [
  | inl (x, found, name) ↦ elim (Option-cases (m token)) [
    | inl missing ↦ absurd (ground arith)
    | inr (y, there) ↦ inl (y, there, ground arith)
  ]
  | inr later ↦ inr later
]

-- A session is answered only for a token that was handed out before, to the user that is answered.
pub validate_session-created :
    (timeout now : ℕ) (token user : Text) (ops : List (ℕ × Op))
    → (validate_session timeout now token (run timeout ops no_sessions).1).0 ≡ some user
    → IsCreatedFor user token ops
unfolding validate_session
validate_session-created timeout now token user ops h =
    elim (Option-cases ((run timeout ops no_sessions).1 token)) [
      | inl missing ↦ absurd (ground arith)
      | inr (e, found) ↦ elim (run-created timeout token ops no_sessions e found) [
        | inl (x, nothing, name) ↦ absurd (ground arith)
        | inr made ↦ subst (λ u. IsCreatedFor u token ops) (ground arith) made
      ]
    ]
