-- ===== src/ControlPlane/Handoff/Refs.antt =====
-- The references between tasks.
use roambench.Base.{
  ℕ, ◌≤◌, ◌≡◌, ◌⊎◌, refl, ◌∙◌, ap, subst, Bool, true, false, ◌&&◌, not, inl, inr, none, some, List,
  [], ◌∷◌, ◌++◌, map, find, if◌then◌else◌, arith, Bool-cases, Option-cases, find-update, find-snoc,
  any-find, count, count-filter, count-map, count-snoc, count-none,
}
use roambench.Base.Text.{Text, text_eq, text_eq_iff, text_eq_refl, is_empty, trim_space}
use roambench.ControlPlane.Errors.{ok}
use roambench.ControlPlane.Handoff.{
  SourceRef, same_pair, cleaned, refreshed, repeat_ref, add_source_ref, delete_source_ref,
}

-- One row for each pair, and none from a task to itself.
abbrev pub IsValid : List SourceRef → Type 0
IsValid t =
    ((a : SourceRef) → count (same_pair a) t ≤ 1)
    × (count (λ r. text_eq r.target_task_id r.source_task_id) t ≡ 0)

pub data Step : List SourceRef → List SourceRef → Type 0 where
  add :
      {t u : List SourceRef} (new_id : Text) (now : ℕ) (user : Text) (input out : SourceRef)
      → add_source_ref new_id now user input t ≡ ok (out, u)
      → Step t u
  delete :
      {t u : List SourceRef} (user ref : Text) → u ≡ (delete_source_ref user ref t).1 → Step t u

pub data Reach : List SourceRef → Type 0 where
  start : Reach []
  next : {t u : List SourceRef} → Reach t → Step t u → Reach u

same_pair-same :
    (a b : SourceRef)
    → same_pair a b ≡ true
    → (a.username ≡ b.username)
      × (a.target_task_id ≡ b.target_task_id)
      × (a.source_task_id ≡ b.source_task_id)
      × (a.relation ≡ b.relation)
same_pair-same a b h = ground (
  arith,
  text_eq_iff a.username b.username,
  text_eq_iff a.target_task_id b.target_task_id,
  text_eq_iff a.source_task_id b.source_task_id,
  text_eq_iff a.relation b.relation,
)

-- What a call that succeeds did: it repeated a pair, or it inserted a new one between two tasks.
add_source_ref-ok :
    (new_id : Text) (now : ℕ) (user : Text) (input out : SourceRef) (t u : List SourceRef)
    → add_source_ref new_id now user input t ≡ ok (out, u)
    → let ref = cleaned user input in
      ((old : SourceRef) × (find (same_pair ref) t ≡ some old)
        × (repeat_ref now ref old t ≡ (out, u)))
      ⊎ ((find (same_pair ref) t ≡ none)
          × (text_eq ref.target_task_id ref.source_task_id ≡ false)
          × (out ≡ record ref { id = new_id; created_at = now })
          × (u ≡ t ++ out ∷ []))
unfolding add_source_ref
add_source_ref-ok new_id now user input out t u h =
    elim (Option-cases (find (same_pair (cleaned user input)) t)) [
      | inl missing ↦ inr (ground arith)
      | inr (old, found) ↦ inl (old, found, ground arith)
    ]

abbrev is_new : SourceRef → SourceRef → Bool
is_new ref old = not (is_empty (trim_space ref.snapshot)) && not (text_eq ref.snapshot old.snapshot)

kept : (t : List SourceRef) → t ≡ map (λ r. r) t
kept [] = refl
kept (x ∷ t) = ap (λ z. x ∷ z) (kept t)

repeat_ref-table :
    (now : ℕ) (ref old : SourceRef) (t : List SourceRef)
    → (repeat_ref now ref old t).1
      ≡ map (λ r. if is_new ref old && text_eq r.id old.id then refreshed now ref r else r) t
unfolding repeat_ref
repeat_ref-table now ref old t = elim (Bool-cases (is_new ref old)) [
  | inl new ↦ ground arith
  | inr same ↦ rw same (kept t)
]

repeat_ref-IsValid :
    (now : ℕ) (ref old : SourceRef) (t : List SourceRef)
    → IsValid t
    → IsValid (repeat_ref now ref old t).1
repeat_ref-IsValid now ref old t v =
    let q = λ (r : SourceRef). is_new ref old && text_eq r.id old.id in
    rw (repeat_ref-table now ref old t) (
      λ a. omega (arith, count-map (same_pair a) q (refreshed now ref) t (λ r. refl), v.0 a),
      count-map (λ r. text_eq r.target_task_id r.source_task_id) q (refreshed now ref) t (λ r. refl)
          ∙ v.1,
    )

count-pair :
    (a r : SourceRef) (t : List SourceRef)
    → same_pair a r ≡ true
    → count (same_pair a) t ≡ count (same_pair r) t
count-pair a r t h = let (u, x, y, z) = same_pair-same a r h in rw (u, x, y, z) refl

insert-IsValid :
    (r : SourceRef) (t : List SourceRef)
    → find (same_pair r) t ≡ none
    → text_eq r.target_task_id r.source_task_id ≡ false
    → IsValid t
    → IsValid (t ++ r ∷ [])
insert-IsValid r t missing apart v = (
  λ a. rw (count-snoc (same_pair a) t r) (elim (Bool-cases (same_pair a r)) [
    | inl own ↦
        let none_yet =
          count-pair a r t own ∙ count-none (same_pair r) t (any-find (same_pair r) t missing) in
        ground arith
    | inr other ↦ ground (arith, v.0 a)
  ]),
  rw (count-snoc (λ x. text_eq x.target_task_id x.source_task_id) t r) (ground (arith, v.1)),
)

Step-IsValid : {t u : List SourceRef} → Step t u → IsValid t → IsValid u
unfolding delete_source_ref
Step-IsValid {t} {u} (add new_id now user input out e) v =
    elim (add_source_ref-ok new_id now user input out t u e) [
      | inl (old, found, same) ↦
          subst IsValid (ap (λ z. z.1) same) (repeat_ref-IsValid now (cleaned user input) old t v)
      | inr (missing, apart, made, table) ↦
          rw (table, made)
            (insert-IsValid (record (cleaned user input) { id = new_id; created_at = now }) t
              missing apart v)
    ]
Step-IsValid {t} {u} (delete user ref e) v =
    let gone = λ (r : SourceRef). not (text_eq r.username user && text_eq r.id ref) in
    rw e (
      λ a. omega (arith, count-filter (same_pair a) gone t, v.0 a),
      omega (arith, count-filter (λ r. text_eq r.target_task_id r.source_task_id) gone t, v.1),
    )

-- However references are added and deleted, at most one row stands for a pair of tasks under one relation, and
-- none leads from a task to itself.
pub Reach-IsValid : {t : List SourceRef} → Reach t → IsValid t
Reach-IsValid start = (λ a. omega arith, refl)
Reach-IsValid (next r s) = Step-IsValid s (Reach-IsValid r)

repeat_ref-found :
    (now : ℕ) (ref old : SourceRef) (t : List SourceRef)
    → find (same_pair ref) t ≡ some old
    → let (out, u) = repeat_ref now ref old t in
      (x : SourceRef) × (find (same_pair ref) u ≡ some x)
      × (x.id ≡ out.id)
      × (x.created_at ≡ out.created_at)
      × (is_empty (trim_space ref.snapshot) ≡ false → x.snapshot ≡ ref.snapshot)
unfolding repeat_ref
repeat_ref-found now ref old t found = elim (Bool-cases (is_new ref old)) [
  | inl new ↦
      let there =
        find-update (same_pair ref) (λ r. text_eq r.id old.id) (refreshed now ref) t old (λ r. refl)
          found in
      (
        refreshed now ref old,
        rw new (there ∙ rw (text_eq_refl old.id) refl),
        ground arith,
        ground arith,
        λ h. refl,
      )
  | inr same ↦ (
    old,
    rw same found,
    ground arith,
    ground arith,
    λ h. ground (arith, text_eq_iff ref.snapshot old.snapshot),
  )
]

same_pair_refl : (a : SourceRef) → same_pair a a ≡ true
same_pair_refl a = ground (
  arith,
  text_eq_refl a.username,
  text_eq_refl a.target_task_id,
  text_eq_refl a.source_task_id,
  text_eq_refl a.relation,
)

-- After a reference was added its pair is found, in the row whose id and time the call returned; that row
-- holds the snapshot that was given, if it is not blank.
pub add_source_ref-found :
    (new_id : Text) (now : ℕ) (user : Text) (input out : SourceRef) (t u : List SourceRef)
    → add_source_ref new_id now user input t ≡ ok (out, u)
    → (x : SourceRef) × (find (same_pair (cleaned user input)) u ≡ some x)
      × (x.id ≡ out.id)
      × (x.created_at ≡ out.created_at)
      × (is_empty (trim_space input.snapshot) ≡ false → x.snapshot ≡ input.snapshot)
unfolding cleaned
add_source_ref-found new_id now user input out t u e =
    elim (add_source_ref-ok new_id now user input out t u e) [
      | inl (old, found, same) ↦
          let (x, there, id, time, text) = repeat_ref-found now (cleaned user input) old t found in
          (
            x,
            subst (λ z. find (same_pair (cleaned user input)) z ≡ some x) (ap (λ z. z.1) same)
                there,
            id ∙ ap (λ z. z.0.id) same,
            time ∙ ap (λ z. z.0.created_at) same,
            text,
          )
      | inr (missing, apart, made, table) ↦ (
        out,
        rw table (
            find-snoc (same_pair (cleaned user input)) t out missing
              (rw made (same_pair_refl (cleaned user input)))),
        refl,
        refl,
        λ h. rw made refl,
      )
    ]
