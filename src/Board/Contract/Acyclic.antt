-- ===== src/Board/Contract/Acyclic.antt =====
-- A contract that is valid has no cycle.
use roambench.Base.{
  ℕ, zero, suc, ◌≡◌, ◌≢◌, sym, subst, true, false, some, inl, inr, List, [], ◌∷◌, arith, length,
  Bool-cases, Option-cases,
}
use roambench.Base.Text.{Text, text_eq, text_eq_iff, contains}
use roambench.Board.{Task, Board, granted, bind-granted}
use roambench.Board.Contract.{
  find_task, visit_all, check_command, check_milestone, check_dependencies, validate_contract,
}

-- A chain of dependencies among the tasks.
pub data Chain (tasks : List Task) : Text → Text → Type 0 where
  here : (x : Text) → Chain tasks x x
  then :
      (x y z : Text) (t : Task)
      → find_task tasks x ≡ some t
      → contains t.depends_on y ≡ true
      → Chain tasks y z
      → Chain tasks x z

-- How the search left a task that it passed.
record Visited (tasks : List Task) (project : Text) (way : List Text) (x : Text) : Type 0 where
  fresh : contains way x ≡ false
  task : Task
  found : find_task tasks x ≡ some task
  own : text_eq task.project_id project ≡ true
  fuel : ℕ
  deeper : visit_all tasks project fuel (x ∷ way) task.depends_on ≡ some (granted tt)

module _ (tasks : List Task) (project : Text) where
  visit-first :
      (fuel : ℕ) (way : List Text) (id : Text) (ids : List Text)
      → visit_all tasks project (suc fuel) way (id ∷ ids) ≡ some (granted tt)
      → Visited tasks project way id
        × (visit_all tasks project (suc fuel) way ids ≡ some (granted tt))
  unfolding visit_all find_task
  visit-first fuel way id ids e = elim (Bool-cases (contains way id)) [
    | inl cycle ↦ absurd (ground arith)
    | inr fresh ↦ elim (Option-cases (find_task tasks id)) [
      | inl unknown ↦ absurd (ground arith)
      | inr (dep, found) ↦ elim (Bool-cases (text_eq dep.project_id project)) [
        | inr foreign ↦ absurd (ground arith)
        | inl own ↦
            let deeper : visit_all tasks project fuel (id ∷ way) dep.depends_on
                ≡ some (granted tt) =
              ground arith in
            (
              record {
                fresh = fresh;
                task = dep;
                found = found;
                own = own;
                fuel = fuel;
                deeper = deeper;
              },
              ground arith,
            )
      ]
    ]
  ]

  visit-empty :
      (way : List Text) (id : Text) (ids : List Text)
      → visit_all tasks project zero way (id ∷ ids) ≢ some (granted tt)
  unfolding visit_all
  visit-empty way id ids = λ e. ground arith

  visit-Visited :
      (fuel : ℕ) (way ids : List Text) (x : Text)
      → visit_all tasks project fuel way ids ≡ some (granted tt)
      → contains ids x ≡ true
      → Visited tasks project way x
  unfolding contains
  visit-Visited fuel way [] x e h = absurd (ground arith)
  visit-Visited zero way (id ∷ ids) x e h = absurd (visit-empty way id ids e)
  visit-Visited (suc fuel) way (id ∷ ids) x e h =
      let (first, rest) = visit-first fuel way id ids e in
      elim (Bool-cases (text_eq id x)) [
        | inl hit ↦ subst (Visited tasks project way) ((text_eq_iff id x).0 hit) first
        | inr miss ↦ visit-Visited (suc fuel) way ids x rest (ground arith)
      ]

  -- What is reached from a task that was passed is not on the way to it, and belongs to the project.
  Chain-Visited :
      (x z : Text) (way : List Text)
      → Chain tasks x z
      → Visited tasks project way x
      → (way' : List Text) × Visited tasks project way' z × (contains way z ≡ false)
  unfolding contains
  Chain-Visited x z way (Chain.here w) v = (way, v, v.fresh)
  Chain-Visited x z way (Chain.then _ y _ t found next rest) v =
      let same : t ≡ v.task = ground (arith, found, v.found) in
      let listed = subst (λ d. contains d.depends_on y ≡ true) same next in
      let below = visit-Visited v.fuel (x ∷ way) v.task.depends_on y v.deeper listed in
      let (way', last, apart) = Chain-Visited y z (x ∷ way) rest below in
      (way', last, ground (arith, apart))

check_dependencies-granted :
    (board : Board) (task : Task)
    → validate_contract board task ≡ granted tt
    → check_dependencies board task ≡ some (granted tt)
unfolding validate_contract
check_dependencies-granted board task e =
    let (_, _, e1) = bind-granted (check_command task) _ tt e in
    let (_, _, e2) = bind-granted (check_milestone board task) _ tt e1 in ground arith

-- A contract is accepted only if its dependencies, and what they depend on in turn, are tasks of the
-- project, and none of them is the task itself.
pub validate_contract-acyclic :
    (board : Board) (task : Task) (x z : Text)
    → validate_contract board task ≡ granted tt
    → contains task.depends_on x ≡ true
    → Chain board.tasks x z
    → (z ≢ task.id)
      × ((t : Task) × (find_task board.tasks z ≡ some t) × (t.project_id ≡ task.project_id))
unfolding check_dependencies contains
validate_contract-acyclic board task x z e h chain =
    let search = check_dependencies-granted board task e in
    let first =
      visit-Visited board.tasks task.project_id (suc (length board.tasks)) (task.id ∷ [])
        task.depends_on x search h in
    let (_, last, apart) =
      Chain-Visited board.tasks task.project_id x z (task.id ∷ []) chain first in
    (
      λ same. ground (arith, apart, text_eq_iff task.id z, sym same),
      (last.task, last.found, (text_eq_iff last.task.project_id task.project_id).0 last.own),
    )
