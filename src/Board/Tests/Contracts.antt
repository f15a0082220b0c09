-- ===== src/Board/Tests/Contracts.antt =====
-- Contracts and leases of concrete tasks.
use roambench.Base.{⊤, ℕ, ◌≡◌, ◌≢◌, refl, true, some, List, [], ◌∷◌}
use roambench.Base.Text.{Text, codes, text_eq, trim_space, contains}
use roambench.ControlPlane.Errors.{ok}
use roambench.ControlPlane.Claims.{
  TaskClaim, Draw, new_claim, insert_claim, try_claim_task, claim_first, claim_ready_task,
  get_claim,
}
use roambench.ControlPlane.Claims.Exclusion.{Step, Reach}
use roambench.Board.{Task, Board, Answer, granted}
use roambench.Board.Words.{TaskState, Acceptance, PhaseId, DispatchState}
use roambench.Board.Phases.{is_managed}
use roambench.Board.Contract.{
  find_task, find_project, visit_all, check_command, check_milestone, check_dependencies,
  validate_contract, dependencies_passed,
}
use roambench.Board.Contract.Depth.{check_dependencies-answers}
use roambench.Board.Contract.Acyclic.{Chain, validate_contract-acyclic}
use roambench.Board.Gate.{project_executes, claim_allowed, require_lease}
use roambench.Board.Gate.Lease.{require_lease-exclusive}
use roambench.Board.Tests.{docs_task, board_of}

-- `c` depends on `a` and `b`, and `b` on `a`.
abbrev task_with : Text → List Text → Task
task_with id ids = record (docs_task id TaskState.planned Acceptance.not_ready PhaseId.plan) {
  depends_on = ids;
}

abbrev diamond : Task
diamond = task_with (codes "c") (codes "a" ∷ codes "b" ∷ [])

abbrev diamond_board : Board
diamond_board = record (board_of diamond [] []) {
  tasks = task_with (codes "a") [] ∷ task_with (codes "b") (codes "a" ∷ []) ∷ diamond ∷ [];
}

diamond_valid : validate_contract diamond_board diamond ≡ granted tt
unfolding validate_contract check_command check_milestone check_dependencies find_project visit_all
    find_task contains text_eq trim_space
diamond_valid = refl

diamond_listed : contains diamond.depends_on (codes "b") ≡ true
unfolding contains text_eq
diamond_listed = refl

diamond-Chain : Chain diamond_board.tasks (codes "b") (codes "a")
unfolding find_task contains text_eq
diamond-Chain =
    Chain.then (codes "b") (codes "a") (codes "a") (task_with (codes "b") (codes "a" ∷ [])) refl
      refl (Chain.here (codes "a"))

validate_contract-acyclic_example :
    (codes "a" ≢ codes "c")
    × ((t : Task) × (find_task diamond_board.tasks (codes "a") ≡ some t)
        × (t.project_id ≡ codes "p"))
validate_contract-acyclic_example =
    validate_contract-acyclic diamond_board diamond (codes "b") (codes "a") diamond_valid
      diamond_listed diamond-Chain

check_dependencies-answers_example :
    (a : Answer ⊤) × (check_dependencies diamond_board diamond ≡ some a)
check_dependencies-answers_example = check_dependencies-answers diamond_board diamond

-- A task that is claimed, in a project that agents execute.
abbrev pub claimed_task : Task
claimed_task = record (docs_task (codes "t") TaskState.running Acceptance.not_ready PhaseId.plan) {
  dispatch_state = DispatchState.claimed;
  acceptance_command = codes "make" ∷ [];
}

abbrev pub claimed_board : Board
claimed_board = record (board_of claimed_task [] []) {
  projects =
      record {
        id = codes "p";
        milestones = [];
        takeover_mode = codes "active";
        lifecycle_state = codes "executing";
        lifecycle_milestone_id = [];
      }
      ∷ [];
}

abbrev draws : ℕ → Draw
draws i = record { now = 7; id = codes "l" }

abbrev pub lease : TaskClaim
lease = new_claim 7 (codes "l") (codes "ann") (codes "t") (codes "r") (codes "codex")

lease_claimed :
    claim_ready_task draws (codes "ann") (codes "t" ∷ []) (codes "r") (codes "codex") []
    ≡ ok (lease, lease ∷ [])
unfolding claim_ready_task claim_first try_claim_task insert_claim trim_space text_eq
lease_claimed = refl

lease-Reach : Reach [] (lease ∷ [])
lease-Reach = Reach.next Reach.here (
    Step.claim draws (codes "ann") (codes "t" ∷ []) (codes "r") (codes "codex") lease lease_claimed)

pub claimed_managed : is_managed claimed_board claimed_task ≡ true
unfolding is_managed text_eq
claimed_managed = refl

lease_opens :
    require_lease 9 (codes "ann") (lease ∷ []) (codes "l") claimed_board claimed_task ≡ granted tt
unfolding require_lease get_claim text_eq is_managed claim_allowed find_project project_executes
    dependencies_passed
lease_opens = refl

require_lease-exclusive_example : (codes "ann" ≡ codes "ann") × (codes "l" ≡ codes "l")
require_lease-exclusive_example =
    require_lease-exclusive lease-Reach 9 9 (codes "ann") (codes "ann") (codes "l") (codes "l")
      claimed_board claimed_board claimed_task claimed_task claimed_managed claimed_managed
      lease_opens lease_opens refl
