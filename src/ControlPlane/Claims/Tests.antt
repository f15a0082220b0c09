-- ===== src/ControlPlane/Claims/Tests.antt =====
-- Leases on a small table: two tasks, two runtimes.
use roambench.Base.{ℕ, ◌+◌, ◌*◌, ◌≡◌, ◌↔◌, refl, false, ◌⊎◌, some, List, [], ◌∷◌, map, any, filter}
use roambench.Base.Text.{Text, codes, text_eq, trim_space, to_lower}
use roambench.ControlPlane.Errors.{ok, err, not_found}
use roambench.ControlPlane.Claims.{
  TaskClaim, ClaimTable, ClaimStatus, DispatchState, expired, update_claims, renew, close_claim,
  Draw, owns_active, is_stale, Outcome, read_outcome, new_claim, claim_ready_task, claim_first,
  try_claim_task, insert_claim, heartbeat_claim, release_claim, expire_stale_claims, expire_each,
}
use roambench.ControlPlane.Claims.Keys.{IsValid}
use roambench.ControlPlane.Claims.Lease.{Takes, claim_ready_task-Takes}
use roambench.ControlPlane.Claims.Renewal.{
  Holds, holds_task, heartbeat_claim-cases, release_claim-frees,
}
use roambench.ControlPlane.Claims.Exclusion.{claim, Reach, here, next, Reach-exclusive}
use roambench.ControlPlane.Claims.Sweep.{expire_stale_claims-eq-update}

abbrev second : ℕ
second = 1_000_000_000

abbrev ann : Text
ann = codes "ann"

-- Round `i` of a claim at `now` draws the id of one byte `first + i`.
abbrev draws_from : ℕ → ℕ → ℕ → Draw
draws_from now first i = record { now = now; id = (first + i) ∷ [] }

abbrev lease_a : TaskClaim
lease_a = new_claim second (b'a' ∷ []) ann (codes "t1") (codes "r1") (codes "codex")

abbrev lease_c : TaskClaim
lease_c = new_claim (2 * second) (b'c' ∷ []) ann (codes "t2") (codes "r2") (codes "kimi")

abbrev two_leases : ClaimTable
two_leases = lease_a ∷ lease_c ∷ []

-- The first claim takes the first candidate; the second finds that one held and takes the next.
first_claim :
    claim_ready_task (draws_from second b'a') ann (codes "t1" ∷ []) (codes "r1") (codes "codex") []
    ≡ ok (lease_a, lease_a ∷ [])
unfolding claim_ready_task claim_first try_claim_task insert_claim trim_space text_eq
first_claim = refl

abbrev candidates : List Text
candidates = codes " t1 " ∷ codes "t2" ∷ []

second_claim :
    claim_ready_task
      (draws_from (2 * second) b'b')
      ann
      candidates
      (codes "r2")
      (codes "kimi")
      (lease_a ∷ [])
    ≡ ok (lease_c, two_leases)
unfolding claim_ready_task claim_first try_claim_task insert_claim trim_space text_eq
second_claim = refl

third_claim :
    claim_ready_task
      (draws_from (3 * second) b'd')
      ann
      candidates
      (codes "r3")
      (codes "x")
      two_leases
    ≡ err not_found
unfolding claim_ready_task claim_first try_claim_task insert_claim trim_space text_eq
third_claim = refl

-- A stranger does not find the lease.
stranger : heartbeat_claim (3 * second) (codes "bob") (b'a' ∷ []) two_leases ≡ err not_found
unfolding heartbeat_claim trim_space text_eq
stranger = refl

two_leases-Reach : Reach [] two_leases
two_leases-Reach =
    next (next here (claim _ _ _ _ _ lease_a first_claim)) (claim _ _ _ _ _ lease_c second_claim)

two_leases-IsValid : IsValid two_leases
unfolding text_eq
two_leases-IsValid = (refl, (refl, tt))

Reach-exclusive_example : ◌≡◌ {A = ℕ} 1 1
Reach-exclusive_example =
    Reach-exclusive two_leases-Reach 1 1 lease_c lease_c refl refl refl refl refl

claim_ready_task-Takes_example :
    Takes
      (draws_from (2 * second) b'b')
      (trim_space ann)
      (trim_space (codes "r2"))
      (trim_space (codes "kimi"))
      (lease_a ∷ [])
      candidates
      lease_c
      two_leases
claim_ready_task-Takes_example =
    claim_ready_task-Takes (draws_from (2 * second) b'b') ann candidates (codes "r2") (codes "kimi")
      (lease_a ∷ []) two_leases lease_c second_claim

heartbeat_claim-cases_example :
    ((c : TaskClaim) × Holds (3 * second) ann (trim_space (b'a' ∷ [])) two_leases c
      × (heartbeat_claim (3 * second) ann (b'a' ∷ []) two_leases
          ≡ ok (
            renew (3 * second) c,
            update_claims
                (owns_active ann (trim_space (b'a' ∷ [])))
                (renew (3 * second))
                two_leases,
          )))
    ⊎ (((c : TaskClaim) → ¬ Holds (3 * second) ann (trim_space (b'a' ∷ [])) two_leases c)
        × (heartbeat_claim (3 * second) ann (b'a' ∷ []) two_leases ≡ err not_found))
unfolding trim_space
heartbeat_claim-cases_example =
    heartbeat_claim-cases (3 * second) ann (b'a' ∷ []) two_leases two_leases-IsValid refl refl

abbrev released_a : TaskClaim
released_a = close_claim ClaimStatus.released (4 * second) lease_a

release_a :
    release_claim (4 * second) ann (codes " a") (codes "DONE") two_leases
    ≡ ok (released_a, DispatchState.done, released_a ∷ lease_c ∷ [])
unfolding release_claim read_outcome to_lower trim_space text_eq
release_a = refl

release_claim-frees_example :
    ((old : TaskClaim) × Holds (4 * second) ann (trim_space (codes " a")) two_leases old
      × (released_a ≡ close_claim ClaimStatus.released (4 * second) old))
    × (any (holds_task released_a.task_id) (released_a ∷ lease_c ∷ []) ≡ false)
    × ((DispatchState.done ≡ DispatchState.done)
        ↔ (read_outcome (codes "DONE") ≡ some Outcome.done))
    × ((later : ℕ) (d : TaskClaim)
        → ¬ Holds later ann (trim_space (codes " a")) (released_a ∷ lease_c ∷ []) d)
release_claim-frees_example =
    release_claim-frees (4 * second) ann (codes " a") (codes "DONE") two_leases
      (released_a ∷ lease_c ∷ []) released_a DispatchState.done two_leases-IsValid release_a

-- At 121 s the first lease has run out and the second has not.
abbrev late : ℕ
late = 121 * second

sweep_late :
    expire_stale_claims late [] two_leases
    ≡ (close_claim expired late lease_a ∷ [], close_claim expired late lease_a ∷ lease_c ∷ [])
unfolding expire_stale_claims expire_each text_eq
sweep_late = refl

expire_stale_claims-eq-update_example : expire_stale_claims late [] two_leases ≡ (
  map (close_claim expired late) (filter (is_stale late []) two_leases),
  update_claims (is_stale late []) (close_claim expired late) two_leases,
)
expire_stale_claims-eq-update_example =
    expire_stale_claims-eq-update late [] two_leases two_leases-IsValid
