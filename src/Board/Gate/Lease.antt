-- ===== src/Board/Gate/Lease.antt =====
-- What the entrance to execution rests on: a lease that runs.
use roambench.Base.{
  ℕ, zero, suc, get_elem?, ◌≡◌, sym, ap, ◌∙◌, subst, Bool, true, some, inl, inr, List, [], ◌∷◌,
  find, arith, Bool-cases, Option-cases,
}
use roambench.Base.Text.{Text, text_eq_iff}
use roambench.ControlPlane.Claims.{ClaimTable, TaskClaim, ClaimStatus, owns, get_claim}
use roambench.ControlPlane.Claims.Exclusion.{Reach, Reach-exclusive}
use roambench.Board.{Task, Board, granted}
use roambench.Board.Phases.{is_managed, is_claimed}
use roambench.Board.Gate.{claim_allowed, covers, require_lease}

-- A granted lease is a row of the user that is active, on the task, and not yet over; the task may be
-- claimed and is.
require_lease-granted :
    (now : ℕ) (user : Text) (claims : ClaimTable) (lease : Text) (board : Board) (task : Task)
    → is_managed board task ≡ true
    → require_lease now user claims lease board task ≡ granted tt
    → (c : TaskClaim) × (find (owns user lease) claims ≡ some c)
      × (covers now task c ≡ true)
      × (claim_allowed board task ≡ true)
      × (is_claimed task.dispatch_state ≡ true)
unfolding require_lease get_claim
require_lease-granted now user claims lease board task m e =
    elim (Option-cases (find (owns user lease) claims)) [
      | inl missing ↦ absurd (ground arith)
      | inr (c, found) ↦ (c, found, ground arith, ground arith, ground arith)
    ]

find-get :
    {A : Type 0} (p : A → Bool) (t : List A) (a : A)
    → find p t ≡ some a
    → (i : ℕ) × (get_elem? t i ≡ some a) × (p a ≡ true)
find-get p [] a h = absurd (ground arith)
find-get p (x ∷ t) a h = elim (Bool-cases (p x)) [
  | inl hit ↦
      let same : x ≡ a = ground arith in (zero, ap some same, subst (λ z. p z ≡ true) same hit)
  | inr miss ↦ let (i, at, own) = find-get p t a (ground arith) in (suc i, at, own)
]

covers-active :
    (now : ℕ) (task : Task) (c : TaskClaim)
    → covers now task c ≡ true
    → (c.status ≡ ClaimStatus.active) × (c.task_id ≡ task.id)
covers-active now task c h = ground (arith, text_eq_iff c.task_id task.id)

-- However claims, heartbeats, releases, sweeps and revocations have interleaved, at most one lease opens
-- the entrance of a task of a managed project: two requests that are let in by their leases, whenever and
-- on whatever boards they came, were made by one user with one lease.
pub require_lease-exclusive :
    {claims : ClaimTable} (r : Reach [] claims) (now now' : ℕ) (user user' lease lease' : Text)
    (board board' : Board) (task task' : Task)
    → is_managed board task ≡ true
    → is_managed board' task' ≡ true
    → require_lease now user claims lease board task ≡ granted tt
    → require_lease now' user' claims lease' board' task' ≡ granted tt
    → task.id ≡ task'.id
    → (user ≡ user') × (lease ≡ lease')
require_lease-exclusive {claims} r now now' user user' lease lease' board board' task task' m m' e
      e' same =
    let (c, found, covered, _, _) = require_lease-granted now user claims lease board task m e in
    let (d, found', covered', _, _) =
      require_lease-granted now' user' claims lease' board' task' m' e' in
    let (i, at, own) = find-get (owns user lease) claims c found in
    let (j, at', own') = find-get (owns user' lease') claims d found' in
    let (active, on) = covers-active now task c covered in
    let (active', on') = covers-active now' task' d covered' in
    let index = Reach-exclusive r i j c d at at' active active' (on ∙ same ∙ sym on') in
    let row : c ≡ d =
      ground (arith, at, subst (λ k. get_elem? claims k ≡ some d) (sym index) at') in
    let owner = subst (λ z. owns user' lease' z ≡ true) (sym row) own' in
    ground (
      arith,
      own,
      owner,
      text_eq_iff c.username user,
      text_eq_iff c.username user',
      text_eq_iff c.claim_id lease,
      text_eq_iff c.claim_id lease',
    )
