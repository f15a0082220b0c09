-- ===== src/Board/Contract/Depth.antt =====
-- The search through the dependencies ends.
use roambench.Base.{
  ℕ, zero, suc, ◌+◌, ◌≤◌, ◌<◌, ◌≡◌, ◌≢◌, refl, ap, true, false, not, none, some, inl, inr, List, [],
  ◌∷◌, ◌++◌, arith, filter, length, All, Bool-cases, Option-cases, ⊤,
}
use roambench.Base.Text.{Text, text_eq, text_eq_iff, text_eq_refl, text_eq_sym, contains}
use roambench.Board.{Task, Board, Answer}
use roambench.Board.Contract.{find_task, visit_all, check_dependencies}

-- No id stands twice.
abbrev Distinct : List Text → Type 0
Distinct [] = ⊤
Distinct (x ∷ xs) = (contains xs x ≡ false) × Distinct xs

abbrev Known : List Task → List Text → Type 0
Known tasks ids = All (λ id. (t : Task) × (find_task tasks id ≡ some t)) ids

abbrev others : Text → List Text → List Text
others id xs = filter (λ x. not (text_eq id x)) xs

module _ (id : Text) where
  contains-others :
      (x : Text) (xs : List Text) → contains xs x ≡ false → contains (others id xs) x ≡ false
  unfolding contains
  contains-others x [] h = refl
  contains-others x (y ∷ xs) h = ground (arith, contains-others x xs)

  others-Distinct : (xs : List Text) → Distinct xs → Distinct (others id xs)
  others-Distinct [] h = tt
  others-Distinct (x ∷ xs) h = elim (Bool-cases (text_eq id x)) [
    | inl hit ↦ rw hit (others-Distinct xs h.1)
    | inr miss ↦ rw miss (contains-others x xs h.0, others-Distinct xs h.1)
  ]

  -- An id that does not stand in a list leaves it as it is.
  others-none : (xs : List Text) → contains xs id ≡ false → others id xs ≡ xs
  unfolding contains
  others-none [] h = refl
  others-none (x ∷ xs) h = ground (arith, others-none xs, text_eq_sym id x)

  length-others : (xs : List Text) → Distinct xs → length xs ≤ suc (length (others id xs))
  length-others [] h = ground arith
  length-others (x ∷ xs) h = elim (Bool-cases (text_eq id x)) [
    | inl hit ↦
        let gone = others-none xs (ground (arith, h.0, text_eq_iff id x)) in
        rw hit (omega (arith, ap length gone))
    | inr miss ↦ rw miss (omega (arith, length-others xs h.1))
  ]

  -- The other ids are known without the task of this id.
  others-Known :
      (t : Task) (tasks : List Task) (xs : List Text)
      → text_eq t.id id ≡ true
      → Known (t ∷ tasks) xs
      → Known tasks (others id xs)
  unfolding find_task
  others-Known t tasks [] e k = tt
  others-Known t tasks (x ∷ xs) e k = elim (Bool-cases (text_eq id x)) [
    | inl hit ↦ rw hit (others-Known t tasks xs e k.1)
    | inr miss ↦
        let (owner, found) = k.0 in
        rw miss (
          (owner, ground (arith, found, text_eq_iff t.id id, text_eq_iff id x)),
          others-Known t tasks xs e k.1,
        )
  ]

Known-nil : (ids : List Text) → Known [] ids → ids ≡ []
unfolding find_task
Known-nil [] k = refl
Known-nil (x ∷ ids) k = absurd (ground (arith, k.0.1))

-- Distinct ids of tasks are at most as many as the tasks.
length-Known :
    (tasks : List Task) (ids : List Text)
    → Distinct ids
    → Known tasks ids
    → length ids ≤ length tasks
length-Known [] ids d k = rw (Known-nil ids k) (ground arith)
length-Known (t ∷ tasks) ids d k =
    let rest =
      length-Known tasks (others t.id ids) (others-Distinct t.id ids d)
        (others-Known t.id t tasks ids (text_eq_refl t.id) k) in
    omega (arith, rest, length-others t.id ids d)

contains-front :
    (way : List Text) (root id : Text)
    → contains (way ++ root ∷ []) id ≡ false
    → contains way id ≡ false
unfolding contains
contains-front [] root id h = refl
contains-front (x ∷ way) root id h = ground (arith, contains-front way root id)

-- With enough fuel for the tasks that are not yet on the way, the search gives an answer.
visit_all-answers :
    (tasks : List Task) (project root : Text) (fuel : ℕ) (way ids : List Text)
    → Distinct way
    → Known tasks way
    → length tasks < fuel + length way
    → visit_all tasks project fuel (way ++ root ∷ []) ids ≢ none
unfolding visit_all find_task
visit_all-answers tasks project root fuel way [] d k h = λ e. ground arith
visit_all-answers tasks project root zero way (id ∷ ids) d k h =
    absurd (omega (arith, length-Known tasks way d k))
visit_all-answers tasks project root (suc fuel) way (id ∷ ids) d k h =
    let rest = visit_all-answers tasks project root (suc fuel) way ids d k h in
    elim (Bool-cases (contains (way ++ root ∷ []) id)) [
      | inl hit ↦ λ e. ground arith
      | inr miss ↦ elim (Option-cases (find_task tasks id)) [
        | inl unknown ↦ λ e. ground arith
        | inr (dep, found) ↦
            let deep =
              visit_all-answers tasks project root fuel (id ∷ way) dep.depends_on
                (contains-front way root id miss, d) ((dep, found), k) (omega (arith, h)) in
            λ e. ground (arith, deep, rest)
      ]
    ]

-- The search for a cycle ends with an answer for any tasks, also those that depend on each other in a
-- circle: the fuel, one more than there are tasks, is never used up.
pub check_dependencies-answers :
    (board : Board) (task : Task) → (a : Answer ⊤) × (check_dependencies board task ≡ some a)
unfolding check_dependencies
check_dependencies-answers board task = elim (Option-cases (check_dependencies board task)) [
  | inl e ↦ absurd (
      visit_all-answers board.tasks task.project_id task.id (suc (length board.tasks)) []
        task.depends_on tt tt (ground arith) e)
  | inr found ↦ found
]
