-- ===== src/ControlPlane/Claims/Renewal.antt =====
-- Renewing and releasing a lease: HeartbeatClaim and ReleaseClaim on a table that keeps its keys.
use roambench.Base.{
  ℕ, ◌<◌, ◌≡◌, ◌↔◌, refl, ap, subst, Bool, true, false, ◌&&◌, ◌⊎◌, inl, inr, some, [], ◌∷◌, arith,
  any, find, count, Bool-cases, Option-cases,
}
use roambench.Base.Text.{Text, text_eq, text_eq_iff, text_eq_sym, is_empty, trim_space}
use roambench.ControlPlane.Errors.{ok, err, not_found}
use roambench.ControlPlane.Claims.{
  TaskClaim, ClaimTable, ClaimStatus, DispatchState, is_active, clashes, update_claims, renew,
  close_claim, owns_active, owns, is_live, get_claim, next_dispatch_state, Outcome, read_outcome,
  heartbeat_claim, release_claim,
}
use roambench.ControlPlane.Claims.Keys.{IsValid}

find-test : (p : TaskClaim → Bool) (t : ClaimTable) (c : TaskClaim) → find p t ≡ some c → p c ≡ true
find-test p [] c e = cc
find-test p (x ∷ t) c e = elim (Bool-cases (p x)) [
  | inl y ↦ let q : x ≡ c = ground arith in subst (λ z. p z ≡ true) q y
  | inr n ↦ find-test p t c (ground arith)
]

module _ (user id : Text) where
  count-others :
      (c : TaskClaim) (t : ClaimTable)
      → any (clashes c) t ≡ false
      → text_eq c.claim_id id ≡ true
      → count (owns_active user id) t ≡ 0
  count-others c [] h e = refl
  count-others c (d ∷ t) h e = ground (
    arith,
    count-others c t,
    text_eq_iff c.claim_id id,
    text_eq_iff d.claim_id id,
    text_eq_iff c.claim_id d.claim_id,
  )

  -- The update by id affects one row, so the test of the affected rows never fails.
  count-owns_active :
      (t : ClaimTable) (c : TaskClaim)
      → IsValid t
      → find (owns user id) t ≡ some c
      → is_active c.status ≡ true
      → count (owns_active user id) t ≡ 1
  count-owns_active [] c v e a = cc
  count-owns_active (x ∷ t) c v e a = elim (Bool-cases (owns user id x)) [
    | inl mine ↦
        let q : x ≡ c = ground arith in
        let k : text_eq x.claim_id id ≡ true = ground arith in
        let l : is_active x.status ≡ true = rw q a in rw (mine, l, count-others x t v.0 k)
    | inr other ↦ rw other (count-owns_active t c v.1 (ground arith) a)
  ]

-- The owner holds the lease at this time: the row that is found is active and not overdue.
abbrev pub Holds : ℕ → Text → Text → ClaimTable → TaskClaim → Type 0
Holds now user id t c =
    (get_claim user id t ≡ ok c) × (is_active c.status ≡ true) × (now < c.lease_expires_at)

-- What a heartbeat answers is decided by the row alone: a lease that its owner still holds is renewed
-- to LeaseTTL from now, in that row only; where the owner holds none, being unknown, closed or overdue,
-- the answer is ErrNotFound.
pub heartbeat_claim-cases :
    (now : ℕ) (user id : Text) (t : ClaimTable)
    → IsValid t
    → is_empty user ≡ false
    → is_empty (trim_space id) ≡ false
    → ((c : TaskClaim) × Holds now user (trim_space id) t c
        × (heartbeat_claim now user id t
            ≡ ok (renew now c, update_claims (owns_active user (trim_space id)) (renew now) t)))
      ⊎ (((c : TaskClaim) → ¬ Holds now user (trim_space id) t c)
          × (heartbeat_claim now user id t ≡ err not_found))
unfolding heartbeat_claim
heartbeat_claim-cases now user id t v u i =
    elim (Option-cases (find (owns user (trim_space id)) t)) [
      | inl missing ↦ inr (λ c h. ground (arith, h.0), ground arith)
      | inr (c, e) ↦ elim (Bool-cases (is_active c.status && is_live now c)) [
        | inr dead ↦ inr (
          λ d h.
              let q : c ≡ d = ground (arith, h.0) in
              let dead' = subst (λ x. (is_active x.status && is_live now x) ≡ false) q dead in
              ground (arith, h.1, h.2),
          ground arith,
        )
        | inl live ↦
            let one = count-owns_active user (trim_space id) t c v e (ground arith) in
            inl (c, (ground arith, ground arith, ground arith), ground arith)
      ]
    ]

-- The row of a task with an active lease.
abbrev pub holds_task : Text → TaskClaim → Bool
holds_task task d = is_active d.status && text_eq d.task_id task

module _ (now : ℕ) (user id : Text) where
  abbrev close_own : ClaimTable → ClaimTable
  close_own = update_claims (owns_active user id) (close_claim ClaimStatus.released now)

  close_own-others :
      (x : TaskClaim) (t : ClaimTable)
      → is_active x.status ≡ true
      → any (clashes x) t ≡ false
      → any (holds_task x.task_id) (close_own t) ≡ false
  close_own-others x [] a h = refl
  close_own-others x (d ∷ t) a h =
      ground (arith, close_own-others x t a, text_eq_sym x.task_id d.task_id)

  find-clashes :
      (x : TaskClaim) (t : ClaimTable) (c : TaskClaim)
      → find (owns user id) t ≡ some c
      → any (clashes x) t ≡ false
      → clashes x c ≡ false
  find-clashes x [] c e h = cc
  find-clashes x (d ∷ t) c e h = elim (Bool-cases (owns user id d)) [
    | inl y ↦ let q : d ≡ c = ground arith in subst (λ z. clashes x z ≡ false) q (ground arith)
    | inr n ↦ find-clashes x t c (ground arith) (ground arith)
  ]

  -- Closing a lease leaves its task with no active lease at all.
  close_own-frees :
      (t : ClaimTable) (c : TaskClaim)
      → IsValid t
      → find (owns user id) t ≡ some c
      → is_active c.status ≡ true
      → any (holds_task c.task_id) (close_own t) ≡ false
  close_own-frees [] c v e a = refl
  close_own-frees (x ∷ t) c v e a = elim (Bool-cases (owns user id x)) [
    | inl mine ↦
        let q : x ≡ c = ground arith in
        let l : is_active x.status ≡ true = rw q a in
        let rest =
          subst (λ z. any (holds_task z.task_id) (close_own t) ≡ false) q
            (close_own-others x t l v.0) in
        rw (mine, l, rest)
    | inr other ↦
        let e' : find (owns user id) t ≡ some c = ground arith in
        let rest = close_own-frees t c v.1 e' a in
        let apart = find-clashes x t c e' v.0 in rw (other, rest) (ground arith)
  ]

  -- A closed row is not found active again by its owner.
  find-closed :
      (t : ClaimTable) (c : TaskClaim)
      → find (owns user id) t ≡ some c
      → is_active c.status ≡ true
      → find (owns user id) (close_own t) ≡ some (close_claim ClaimStatus.released now c)
  find-closed [] c e a = cc
  find-closed (x ∷ t) c e a = elim (Bool-cases (owns user id x)) [
    | inl mine ↦
        let q : x ≡ c = ground arith in
        let l : is_active x.status ≡ true = rw q a in
        rw (mine, l) (rw mine (ap (λ z. some (close_claim ClaimStatus.released now z)) q))
    | inr other ↦ rw other (rw other (find-closed t c (ground arith) a))
  ]

release_claim-inversion :
    (now : ℕ) (user id outcome : Text) (t u : ClaimTable) (c : TaskClaim) (s : DispatchState)
    → release_claim now user id outcome t ≡ ok (c, s, u)
    → (old : TaskClaim) × (o : Outcome) × (read_outcome outcome ≡ some o)
      × Holds now user (trim_space id) t old
      × (c ≡ close_claim ClaimStatus.released now old)
      × (s ≡ next_dispatch_state o)
      × (u ≡ close_own now user (trim_space id) t)
unfolding release_claim
release_claim-inversion now user id outcome t u c s e = elim (Option-cases (read_outcome outcome)) [
  | inl bad ↦ absurd (ground arith)
  | inr (o, read) ↦ elim (Option-cases (find (owns user (trim_space id)) t)) [
    | inl missing ↦ absurd (ground arith)
    | inr (old, found) ↦ (
      old,
      o,
      read,
      (ground arith, ground arith, ground arith),
      ground arith,
      ground arith,
      ground arith,
    )
  ]
]

-- A release that succeeds was made by the holder of a live lease. Its task has no active lease
-- left, and is done exactly for the outcome "done" and otherwise ready; the lease can be neither
-- renewed nor released again, at whatever time.
pub release_claim-frees :
    (now : ℕ) (user id outcome : Text) (t u : ClaimTable) (c : TaskClaim) (s : DispatchState)
    → IsValid t
    → release_claim now user id outcome t ≡ ok (c, s, u)
    → ((old : TaskClaim) × Holds now user (trim_space id) t old
        × (c ≡ close_claim ClaimStatus.released now old))
      × (any (holds_task c.task_id) u ≡ false)
      × ((s ≡ DispatchState.done) ↔ (read_outcome outcome ≡ some Outcome.done))
      × ((later : ℕ) (d : TaskClaim) → ¬ Holds later user (trim_space id) u d)
unfolding get_claim
release_claim-frees now user id outcome t u c s v e =
    let (old, o, read, (got, act, live), closed, state, table) =
      release_claim-inversion now user id outcome t u c s e in
    let found : find (owns user (trim_space id)) t ≡ some old = ground arith in
    let frees = close_own-frees now user (trim_space id) t old v found act in
    let gone = find-closed now user (trim_space id) t old found act in
    (
      (old, (got, act, live), closed),
      rw (closed, table) frees,
      ground arith,
      λ later d h.
          let h0 = subst (λ w. get_claim user (trim_space id) w ≡ ok d) table h.0 in
          ground (arith, h0, h.1),
    )
