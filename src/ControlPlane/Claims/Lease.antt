-- ===== src/ControlPlane/Claims/Lease.antt =====
-- Claiming a lease: ClaimReadyTask of internal/controlplane/claims.go.
use mathlib.Core.Option.{some-injective}
use roambench.Base.{
  ℕ, zero, suc, ◌<◌, ◌≡◌, ◌↔◌, refl, sym, subst, ◌∙◌, true, false, ◌⊎◌, inl, inr, some, List, [],
  ◌∷◌, ◌++◌, arith, any, get_elem?, Bool-cases,
}
use roambench.Base.Text.{Text, is_empty, trim_space}
use roambench.ControlPlane.Errors.{ok, err, not_found}
use roambench.ControlPlane.Claims.{
  TaskClaim, ClaimTable, clashes, insert_claim, Draw, new_claim, try_claim_task, claim_first,
  claim_ready_task,
}

module _ (draws : ℕ → Draw) (user runtime agent : Text) (t : ClaimTable) where
  -- The row that round `i` would insert for this candidate.
  abbrev pub candidate : ℕ → Text → TaskClaim
  candidate i task = new_claim (draws i).now (draws i).id user (trim_space task) runtime agent

  -- A candidate that the loop passes over in round `i`.
  abbrev pub IsPassed : ℕ → Text → Type 0
  IsPassed i task =
      (is_empty (trim_space task) ≡ true) ⊎ (any (clashes (candidate i task)) t ≡ true)

  -- A candidate that the loop takes in round `i`.
  abbrev pub IsFree : ℕ → Text → Type 0
  IsFree i task =
      (is_empty (trim_space task) ≡ false) × (any (clashes (candidate i task)) t ≡ false)

  claim_first-passed :
      (task : Text) (tasks : List Text)
      → IsPassed 0 task
      → claim_first draws user (task ∷ tasks) runtime agent t
        ≡ claim_first (λ i. draws (suc i)) user tasks runtime agent t
  unfolding claim_first try_claim_task insert_claim
  claim_first-passed task tasks (inl blank) = rw blank
  claim_first-passed task tasks (inr clash) = ground arith

  claim_first-free :
      (task : Text) (tasks : List Text)
      → IsFree 0 task
      → claim_first draws user (task ∷ tasks) runtime agent t
        ≡ ok (candidate 0 task, t ++ candidate 0 task ∷ [])
  unfolding claim_first try_claim_task insert_claim
  claim_first-free task tasks (some_text, free) = rw (some_text, free)

  candidate-cases : (i : ℕ) (task : Text) → IsPassed i task ⊎ IsFree i task
  candidate-cases i task = elim (Bool-cases (is_empty (trim_space task))) [
    | inl blank ↦ inl (inl blank)
    | inr some_text ↦ elim (Bool-cases (any (clashes (candidate i task)) t)) [
      | inl clash ↦ inl (inr clash)
      | inr free ↦ inr (some_text, free)
    ]
  ]

  -- Every candidate before round `i` is passed over.
  abbrev pub PassedBefore : List Text → ℕ → Type 0
  PassedBefore tasks i =
      (j : ℕ) (task : Text) → j < i → get_elem? tasks j ≡ some task → IsPassed j task

  -- The lease that a claim returns is the row for the first free candidate, and the table gains it.
  abbrev pub Takes : List Text → TaskClaim → ClaimTable → Type 0
  Takes tasks c u =
      (i : ℕ) × (task : Text) × (get_elem? tasks i ≡ some task)
      × IsFree i task
      × (c ≡ candidate i task)
      × (u ≡ t ++ c ∷ [])
      × PassedBefore tasks i

module _ (user runtime agent : Text) (t : ClaimTable) where
  before_suc :
      (draws : ℕ → Draw) (task : Text) (tasks : List Text) (i : ℕ)
      → IsPassed draws user runtime agent t 0 task
      → PassedBefore (λ k. draws (suc k)) user runtime agent t tasks i
      → PassedBefore draws user runtime agent t (task ∷ tasks) (suc i)
  before_suc draws task tasks i p h zero task' lt e =
      subst (IsPassed draws user runtime agent t 0) (some-injective task task' e) p
  before_suc draws task tasks i p h (suc j) task' lt e = h j task' (omega arith) e

module _ (user runtime agent : Text) (t u : ClaimTable) (c : TaskClaim) where
  claim_first-Takes :
      (draws : ℕ → Draw) (tasks : List Text)
      → claim_first draws user tasks runtime agent t ≡ ok (c, u)
      → Takes draws user runtime agent t tasks c u
  unfolding claim_first
  claim_first-Takes draws [] e = absurd (ground arith)
  claim_first-Takes draws (task ∷ tasks) e =
      elim (candidate-cases draws user runtime agent t 0 task) [
        | inl passed ↦
            let later =
              claim_first-Takes (λ i. draws (suc i)) tasks
                (sym (claim_first-passed draws user runtime agent t task tasks passed) ∙ e) in
            (
              suc later.0,
              later.1,
              later.2,
              later.3,
              later.4,
              later.5,
              before_suc user runtime agent t draws task tasks later.0 passed later.6,
            )
        | inr free ↦
            let q = claim_first-free draws user runtime agent t task tasks free in
            (0, task, refl, free, cc (sym e ∙ q), cc (sym e ∙ q), λ j task' h. absurd (omega arith))
      ]

-- A claim that succeeds takes the first candidate that is neither blank nor held: the row that it
-- returns is active, runs for LeaseTTL from the time it was tried, and is the only change.
pub claim_ready_task-Takes :
    (draws : ℕ → Draw) (user : Text) (tasks : List Text) (runtime agent : Text) (t u : ClaimTable)
    (c : TaskClaim)
    → claim_ready_task draws user tasks runtime agent t ≡ ok (c, u)
    → Takes draws (trim_space user) (trim_space runtime) (trim_space agent) t tasks c u
unfolding claim_ready_task
claim_ready_task-Takes draws user tasks runtime agent t u c e =
    claim_first-Takes (trim_space user) (trim_space runtime) (trim_space agent) t u c draws tasks
      (ground arith)

claim_first-not_found :
    (draws : ℕ → Draw) (user : Text) (tasks : List Text) (runtime agent : Text) (t : ClaimTable)
    → ((j : ℕ) (task : Text)
        → get_elem? tasks j ≡ some task
        → IsPassed draws user runtime agent t j task)
    → claim_first draws user tasks runtime agent t ≡ err not_found
unfolding claim_first
claim_first-not_found draws user [] runtime agent t h = refl
claim_first-not_found draws user (task ∷ tasks) runtime agent t h =
    claim_first-passed draws user runtime agent t task tasks (h 0 task refl)
    ∙ claim_first-not_found (λ i. draws (suc i)) user tasks runtime agent t
        (λ j task' e. h (suc j) task' e)

claim_first_total :
    (draws : ℕ → Draw) (user : Text) (tasks : List Text) (runtime agent : Text) (t : ClaimTable)
    (i : ℕ) (task : Text)
    → get_elem? tasks i ≡ some task
    → IsFree draws user runtime agent t i task
    → (c : TaskClaim) × (u : ClaimTable) × (claim_first draws user tasks runtime agent t
        ≡ ok (c, u))
claim_first_total draws user [] runtime agent t i task e f = cc
claim_first_total draws user (x ∷ tasks) runtime agent t zero task e f =
    let free = subst (IsFree draws user runtime agent t 0) (sym (some-injective x task e)) f in
    (_, _, claim_first-free draws user runtime agent t x tasks free)
claim_first_total draws user (x ∷ tasks) runtime agent t (suc i) task e f =
    elim (candidate-cases draws user runtime agent t 0 x) [
      | inr free ↦ (_, _, claim_first-free draws user runtime agent t x tasks free)
      | inl passed ↦
          let later =
            claim_first_total (λ k. draws (suc k)) user tasks runtime agent t i task e f in
          (later.0, later.1, claim_first-passed draws user runtime agent t x tasks passed ∙ later.2)
    ]

-- With a user, a runtime and an agent label that are not blank, a claim answers ErrNotFound exactly
-- when every candidate is blank or held; otherwise it takes a lease.
pub claim_ready_task_iff_not_found :
    (draws : ℕ → Draw) (user : Text) (tasks : List Text) (runtime agent : Text) (t : ClaimTable)
    → is_empty (trim_space user) ≡ false
    → is_empty (trim_space runtime) ≡ false
    → is_empty (trim_space agent) ≡ false
    → (claim_ready_task draws user tasks runtime agent t ≡ err not_found) ↔ (
        (j : ℕ) (task : Text)
        → get_elem? tasks j ≡ some task
        → IsPassed draws (trim_space user) (trim_space runtime) (trim_space agent) t j task)
unfolding claim_ready_task
claim_ready_task_iff_not_found draws user tasks runtime agent t u r a =
    let user' = trim_space user in
    let runtime' = trim_space runtime in
    let agent' = trim_space agent in
    rw (u, r, a)
      (
        λ e j task k. elim (candidate-cases draws user' runtime' agent' t j task) [
          | inl passed ↦ passed
          | inr free ↦
              let taken = claim_first_total draws user' tasks runtime' agent' t j task k free in
              absurd (cc (taken.2))
        ],
        λ h. claim_first-not_found draws user' tasks runtime' agent' t h,
      )
