-- ===== src/ControlPlane/Claims.antt =====
-- Task claim leases: internal/controlplane/claims.go, with the table task_claims and its two unique
-- keys from internal/controlplane/repository.go. The table is the list of its rows in insertion
-- order. Times are nanoseconds since the zero `time.Time`. The clock and `newID` are arguments.
-- A transaction that returns an error is rolled back, so an error comes with no new table.
pub mod Keys
pub mod Lease
pub mod Renewal
pub mod Exclusion
pub mod Sweep
mod Tests
use roambench.Base.{
  ℕ, suc, ◌+◌, Bool, true, false, ◌&&◌, ◌||◌, not, Option, none, some, List, [], ◌∷◌, ◌++◌, map,
  leb, ltb, ◌==◌, if◌then◌else◌, find, any, filter, count, ⊤,
}
use roambench.Base.Text.{Text, codes, text_eq, is_empty, trim_space, to_lower}
use roambench.ControlPlane.Errors.{Error, not_found, validation, lease_conflict, Result, ok, err}

-- LeaseTTL, 120 s.
abbrev pub lease_ttl : ℕ
lease_ttl = 120_000_000_000

pub data ClaimStatus : Type 0 where
  active released expired : ClaimStatus

abbrev pub is_active : ClaimStatus → Bool
is_active active = true
is_active released = false
is_active expired = false

-- The dispatch states that a release hands to the task.
pub data DispatchState : Type 0 where
  ready done : DispatchState

pub record TaskClaim : Type 0 where
  pub claim_id : Text
  pub username : Text
  pub task_id : Text
  pub runtime_id : Text
  pub agent_label : Text
  pub status : ClaimStatus
  pub lease_expires_at : ℕ
  pub created_at : ℕ
  pub updated_at : ℕ

abbrev pub ClaimTable : Type 0
ClaimTable = List TaskClaim

-- Two rows that the primary key `claim_id`, or the partial unique index on `task_id` of the active
-- rows, forbids to stand together.
abbrev pub clashes : TaskClaim → TaskClaim → Bool
clashes c d =
    text_eq c.claim_id d.claim_id
    || (is_active c.status && is_active d.status && text_eq c.task_id d.task_id)

-- `INSERT INTO task_claims`; a violation of either key is ErrLeaseConflict (`isUniqueViolation`).
unfoldable pub insert_claim : TaskClaim → ClaimTable → Result ClaimTable
insert_claim c t = if any (clashes c) t then err lease_conflict else ok (t ++ c ∷ [])

-- `UPDATE task_claims SET ... WHERE ...`.
abbrev pub update_claims : (TaskClaim → Bool) → (TaskClaim → TaskClaim) → ClaimTable → ClaimTable
update_claims test f t = map (λ c. if test c then f c else c) t

-- The row that `tryClaimTask` inserts.
abbrev pub new_claim : ℕ → Text → Text → Text → Text → Text → TaskClaim
new_claim now id user task runtime agent = record {
  claim_id = id;
  username = user;
  task_id = task;
  runtime_id = runtime;
  agent_label = agent;
  status = active;
  lease_expires_at = now + lease_ttl;
  created_at = now;
  updated_at = now;
}

unfoldable pub try_claim_task :
    ℕ → Text → Text → Text → Text → Text → ClaimTable → Result (TaskClaim × ClaimTable)
try_claim_task now id user task runtime agent t =
    let c = new_claim now id user task runtime agent in
    elim (insert_claim c t) [ ok t' ↦ ok (c, t') | err e ↦ err e ]

-- What one candidate costs: the time at which it is tried and the id drawn for it.
pub record Draw : Type 0 where
  pub now : ℕ
  pub id : Text

-- The loop of `ClaimReadyTask`; `draws` gives each round its time and id.
unfoldable pub claim_first :
    (ℕ → Draw) → Text → List Text → Text → Text → ClaimTable → Result (TaskClaim × ClaimTable)
claim_first draws user [] runtime agent t = err not_found
claim_first draws user (task ∷ tasks) runtime agent t =
    let task' = trim_space task in
    let rest = claim_first (λ i. draws (suc i)) user tasks runtime agent t in
    if is_empty task'
    then rest
    else elim (try_claim_task (draws 0).now (draws 0).id user task' runtime agent t) [
      | ok r ↦ ok r
      | err lease_conflict ↦ rest
      | err e ↦ err e
    ]

unfoldable pub claim_ready_task :
    (ℕ → Draw) → Text → List Text → Text → Text → ClaimTable → Result (TaskClaim × ClaimTable)
claim_ready_task draws user tasks runtime agent t =
    let user' = trim_space user in
    let runtime' = trim_space runtime in
    let agent' = trim_space agent in
    if is_empty user'
    then err validation
    else if is_empty runtime' || is_empty agent'
    then err validation
    else claim_first draws user' tasks runtime' agent' t

-- `getClaimTx`; `GetClaim` is this query alone.
abbrev pub owns : Text → Text → TaskClaim → Bool
owns user id c = text_eq c.username user && text_eq c.claim_id id

unfoldable pub get_claim : Text → Text → ClaimTable → Result TaskClaim
get_claim user id t = elim (find (owns user id) t) [ none ↦ err not_found | some c ↦ ok c ]

-- `ActiveClaimForTask`.
unfoldable pub active_claim_for_task : Text → Text → ClaimTable → Result TaskClaim
active_claim_for_task user task t =
    if is_empty user || is_empty task
    then err validation
    else elim (find (λ c. text_eq c.username user && text_eq c.task_id task && is_active c.status)
        t) [ none ↦ err not_found | some c ↦ ok c ]

-- `claim.LeaseExpiresAt.After(now)`.
abbrev pub is_live : ℕ → TaskClaim → Bool
is_live now c = ltb now c.lease_expires_at

-- The WHERE clause of the updates by id.
abbrev pub owns_active : Text → Text → TaskClaim → Bool
owns_active user id c = owns user id c && is_active c.status

abbrev pub renew : ℕ → TaskClaim → TaskClaim
renew now c = record c { lease_expires_at = now + lease_ttl; updated_at = now }

abbrev pub close_claim : ClaimStatus → ℕ → TaskClaim → TaskClaim
close_claim s now c = record c { status = s; updated_at = now }

-- `HeartbeatClaim`: the renewed lease, and the table. The count of affected rows is tested as in
-- the code. The timeline event that it returns is left out.
unfoldable pub heartbeat_claim : ℕ → Text → Text → ClaimTable → Result (TaskClaim × ClaimTable)
unfolding get_claim
heartbeat_claim now user id t =
    let id' = trim_space id in
    if is_empty user || is_empty id' then err validation else elim (get_claim user id' t) [
      | err e ↦ err e
      | ok c ↦
          if not (is_active c.status)
          then err not_found
          else if not (is_live now c)
          then err not_found
          else if not (count (owns_active user id') t == 1)
          then err not_found
          else ok (renew now c, update_claims (owns_active user id') (renew now) t)
    ]

-- The outcomes of a release; `none` is a text that is refused.
pub data Outcome : Type 0 where
  done failed released : Outcome

unfoldable pub read_outcome : Text → Option Outcome
read_outcome s =
    let s' = trim_space (to_lower s) in
    if text_eq s' (codes "done")
    then some Outcome.done
    else if text_eq s' (codes "failed")
    then some failed
    else if text_eq s' (codes "released")
    then some Outcome.released
    else none

abbrev pub next_dispatch_state : Outcome → DispatchState
next_dispatch_state Outcome.done = DispatchState.done
next_dispatch_state failed = ready
next_dispatch_state Outcome.released = ready

-- `ReleaseClaim`: the closed lease, the next dispatch state of its task, and the table.
unfoldable pub release_claim :
    ℕ → Text → Text → Text → ClaimTable → Result (TaskClaim × DispatchState × ClaimTable)
unfolding get_claim
release_claim now user id outcome t =
    let id' = trim_space id in
    elim (read_outcome outcome) [
      | none ↦ err validation
      | some o ↦ elim (get_claim user id' t) [
        | err e ↦ err e
        | ok c ↦
            if not (is_active c.status) || not (is_live now c)
            then err not_found
            else if not (count (owns_active user id') t == 1)
            then err not_found
            else ok (
              close_claim ClaimStatus.released now c,
              next_dispatch_state o,
              update_claims (owns_active user id') (close_claim ClaimStatus.released now) t,
            )
      ]
    ]

-- The query of `expireStaleClaims`, and the test that it makes of each row; an empty name stands
-- for every user.
abbrev pub is_stale : ℕ → Text → TaskClaim → Bool
is_stale now user c =
    is_active c.status && (is_empty user || text_eq c.username user) && not (is_live now c)

abbrev pub is_active_id : Text → TaskClaim → Bool
is_active_id id c = text_eq c.claim_id id && is_active c.status

-- The loop over the stale rows: one update by id for each; a row that is no longer active is
-- passed over.
unfoldable pub expire_each : ℕ → List TaskClaim → ClaimTable → List TaskClaim × ClaimTable
expire_each now [] t = ([], t)
expire_each now (c ∷ stale) t =
    let t' = update_claims (is_active_id c.claim_id) (close_claim expired now) t in
    let (out, u) = expire_each now stale t' in
    if count (is_active_id c.claim_id) t == 1
    then (close_claim expired now c ∷ out, u)
    else (out, u)

-- `expireStaleClaims`; `ExpireStaleClaims` gives it the empty name.
unfoldable pub expire_stale_claims : ℕ → Text → ClaimTable → List TaskClaim × ClaimTable
expire_stale_claims now user t = expire_each now (filter (is_stale now user) t) t

-- `RevokeTaskClaims`.
unfoldable pub revoke_task_claims : ℕ → Text → Text → ClaimTable → ClaimTable
revoke_task_claims now user task t =
    update_claims (λ c. text_eq c.username user && text_eq c.task_id task && is_active c.status)
      (close_claim ClaimStatus.released now) t
