-- ===== src/ControlPlane/Claims/Exclusion.antt =====
-- Sequences of operations on the leases of internal/controlplane/claims.go.
use mathlib.Core.Option.{some-injective}
use roambench.Base.{
  ℕ, zero, suc, ◌≡◌, refl, ap, subst, Bool, true, false, ◌&&◌, inl, inr, some, List, [], ◌∷◌, arith,
  any, get_elem?, count, Bool-cases, ◌==◌,
}
use roambench.Base.Text.{Text, text_eq, text_eq_iff, trim_space}
use roambench.ControlPlane.Errors.{ok}
use roambench.ControlPlane.Claims.{
  TaskClaim, ClaimTable, ClaimStatus, DispatchState, expired, is_active, clashes, insert_claim,
  update_claims, renew, close_claim, Draw, owns_active, is_active_id, new_claim, try_claim_task,
  claim_first, claim_ready_task, heartbeat_claim, release_claim, expire_each, expire_stale_claims,
  revoke_task_claims,
}
use roambench.ControlPlane.Claims.Keys.{
  IsValid, clashes_sym, insert_claim-IsValid, update_claims-IsValid, renew-IsTame,
  close_claim-IsTame,
}

-- One operation of the store that commits, by any client, at any time, with any ids drawn.
pub data Step (t : ClaimTable) (u : ClaimTable) : Type 0 where
  claim :
      (draws : ℕ → Draw) (user : Text) (tasks : List Text) (runtime agent : Text) (c : TaskClaim)
      → claim_ready_task draws user tasks runtime agent t ≡ ok (c, u)
      → Step t u
  heartbeat :
      (now : ℕ) (user id : Text) (c : TaskClaim)
      → heartbeat_claim now user id t ≡ ok (c, u)
      → Step t u
  release :
      (now : ℕ) (user id outcome : Text) (c : TaskClaim) (s : DispatchState)
      → release_claim now user id outcome t ≡ ok (c, s, u)
      → Step t u
  expire : (now : ℕ) (user : Text) → u ≡ (expire_stale_claims now user t).1 → Step t u
  revoke : (now : ℕ) (user task : Text) → u ≡ revoke_task_claims now user task t → Step t u

pub data Reach (s : ClaimTable) : ClaimTable → Type 0 where
  here : Reach s s
  next : {t u : ClaimTable} → Reach s t → Step t u → Reach s u

try_claim_task-ok :
    (now : ℕ) (id user task runtime agent : Text) (t u : ClaimTable) (c : TaskClaim)
    → try_claim_task now id user task runtime agent t ≡ ok (c, u)
    → (c ≡ new_claim now id user task runtime agent) × (insert_claim c t ≡ ok u)
unfolding try_claim_task
try_claim_task-ok now id user task runtime agent t u c e = ground arith

claim_first-IsValid :
    (draws : ℕ → Draw) (user : Text) (tasks : List Text) (runtime agent : Text) (t u : ClaimTable)
    (c : TaskClaim)
    → claim_first draws user tasks runtime agent t ≡ ok (c, u)
    → IsValid t
    → IsValid u
unfolding claim_first try_claim_task
claim_first-IsValid draws user [] runtime agent t u c e v = absurd (ground arith)
claim_first-IsValid draws user (task ∷ tasks) runtime agent t u c e v =
    let fresh = new_claim (draws 0).now (draws 0).id user (trim_space task) runtime agent in
    ground (
      arith,
      claim_first-IsValid (λ i. draws (suc i)) user tasks runtime agent t u c,
      insert_claim-IsValid fresh t u,
    )

heartbeat_claim-IsValid :
    (now : ℕ) (user id : Text) (t u : ClaimTable) (c : TaskClaim)
    → heartbeat_claim now user id t ≡ ok (c, u)
    → IsValid t
    → IsValid u
unfolding heartbeat_claim
heartbeat_claim-IsValid now user id t u c e v =
    let kept =
      update_claims-IsValid (owns_active user (trim_space id)) (renew now) (renew-IsTame now) t v in
    ground (arith, kept)

release_claim-IsValid :
    (now : ℕ) (user id outcome : Text) (t u : ClaimTable) (c : TaskClaim) (s : DispatchState)
    → release_claim now user id outcome t ≡ ok (c, s, u)
    → IsValid t
    → IsValid u
unfolding release_claim
release_claim-IsValid now user id outcome t u c s e v =
    let close = close_claim ClaimStatus.released now in
    let kept =
      update_claims-IsValid (owns_active user (trim_space id)) close
        (close_claim-IsTame ClaimStatus.released now refl) t v in
    ground (arith, kept)

expire_each-IsValid :
    (now : ℕ) (stale : List TaskClaim) (t : ClaimTable)
    → IsValid t
    → IsValid (expire_each now stale t).1
unfolding expire_each
expire_each-IsValid now [] t v = v
expire_each-IsValid now (c ∷ stale) t v =
    let f = close_claim expired now in
    let u = update_claims (is_active_id c.claim_id) f t in
    let ih = expire_each-IsValid now stale u (
      update_claims-IsValid (is_active_id c.claim_id) f (close_claim-IsTame expired now refl) t
        v) in
    elim (Bool-cases (count (is_active_id c.claim_id) t == 1)) [
      | inl one ↦ rw one ih
      | inr none_or_many ↦ rw none_or_many ih
    ]

-- Every operation keeps the unique keys.
pub Step-IsValid : {t u : ClaimTable} → Step t u → IsValid t → IsValid u
unfolding claim_ready_task expire_stale_claims revoke_task_claims
Step-IsValid {t} {u} (claim draws user tasks runtime agent c e) v = ground (
  arith,
  claim_first-IsValid draws (trim_space user) tasks (trim_space runtime) (trim_space agent) t u c,
)
Step-IsValid {t} {u} (heartbeat now user id c e) v = heartbeat_claim-IsValid now user id t u c e v
Step-IsValid {t} {u} (release now user id outcome c s e) v =
    release_claim-IsValid now user id outcome t u c s e v
Step-IsValid {t} {u} (expire now user e) v = rw e (expire_each-IsValid now _ t v)
Step-IsValid {t} {u} (revoke now user task e) v = rw e (
    update_claims-IsValid
      (λ c. text_eq c.username user && text_eq c.task_id task && is_active c.status)
      (close_claim ClaimStatus.released now) (close_claim-IsTame ClaimStatus.released now refl) t v)

pub Reach-IsValid : {s t : ClaimTable} → IsValid s → Reach s t → IsValid t
Reach-IsValid v here = v
Reach-IsValid v (next r st) = Step-IsValid st (Reach-IsValid v r)

any-get :
    (p : TaskClaim → Bool) (t : ClaimTable) (j : ℕ) (d : TaskClaim)
    → get_elem? t j ≡ some d
    → any p t ≡ false
    → p d ≡ false
any-get p [] j d e h = cc
any-get p (x ∷ t) zero d e h =
    let k : p x ≡ false = ground arith in subst (λ y. p y ≡ false) (some-injective x d e) k
any-get p (x ∷ t) (suc j) d e h = any-get p t j d e (ground arith)

IsValid-apart :
    (t : ClaimTable) (i j : ℕ) (c d : TaskClaim)
    → IsValid t
    → get_elem? t i ≡ some c
    → get_elem? t j ≡ some d
    → clashes c d ≡ true
    → i ≡ j
IsValid-apart [] i j c d v e f k = cc
IsValid-apart (x ∷ t) zero zero c d v e f k = refl
IsValid-apart (x ∷ t) zero (suc j) c d v e f k =
    let q = some-injective x c e in
    let h = subst (λ y. clashes y d ≡ false) q (any-get (clashes x) t j d f v.0) in cc
IsValid-apart (x ∷ t) (suc i) zero c d v e f k =
    let q = some-injective x d f in
    let h = subst (λ y. clashes y c ≡ false) q (any-get (clashes x) t i c e v.0) in
    cc (clashes_sym c d)
IsValid-apart (x ∷ t) (suc i) (suc j) c d v e f k = ap suc (IsValid-apart t i j c d v.1 e f k)

-- Mutual exclusion. However the operations of any number of clients interleave from an empty table,
-- two rows that hold an active lease on one task are one row.
pub Reach-exclusive :
    {t : ClaimTable} (r : Reach [] t) (i j : ℕ) (c d : TaskClaim)
    → get_elem? t i ≡ some c
    → get_elem? t j ≡ some d
    → c.status ≡ ClaimStatus.active
    → d.status ≡ ClaimStatus.active
    → c.task_id ≡ d.task_id
    → i ≡ j
Reach-exclusive {t} r i j c d e f a b k =
    IsValid-apart t i j c d (Reach-IsValid tt r) e f
      (ground (arith, text_eq_iff c.task_id d.task_id))
