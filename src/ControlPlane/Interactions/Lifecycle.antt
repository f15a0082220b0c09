-- ===== src/ControlPlane/Interactions/Lifecycle.antt =====
-- The life of an interaction: how one row may follow another.
use roambench.Base.{
  ℕ, ◌≡◌, refl, ap, subst, ◌∙◌, Bool, true, false, ◌⊎◌, inl, inr, List, [], ◌∷◌, map, arith,
  if◌then◌else◌, All, Bool-cases,
}
use roambench.Base.Text.{Text}
use roambench.ControlPlane.Errors.{Result-cases, Result, ok}
use roambench.ControlPlane.Db.{Status, is_pending, Interaction, Db, Tx, ◌>>=◌, pure, transact}
use roambench.ControlPlane.Interactions.{is_open_at, close_row, close_interaction}

-- A row is open at version 1 with no outcome, or closed at version 2.
abbrev pub IsSound : Interaction → Type 0
IsSound r =
    ((is_pending r.status ≡ true)
      × (r.row_version ≡ 1)
      × (r.final_action ≡ [])
      × (r.resolved_at ≡ 0))
    ⊎ ((is_pending r.status ≡ false) × (r.row_version ≡ 2))

-- One operation leaves the row, or closes it while it is open.
abbrev pub Evolves : Interaction → Interaction → Type 0
Evolves r u =
    (u ≡ r)
    ⊎ ((is_pending r.status ≡ true)
        × ((s : Status) × (action : Text) × (now : ℕ) × (is_pending s ≡ false)
            × (u ≡ close_row s action now r)))

-- Every row of the first table evolves in its place, and the rows behind it are sound new ones.
abbrev pub Follows : List Interaction → List Interaction → Type 0
Follows [] us = All IsSound us
Follows (r ∷ rs) [] = ⊥
Follows (r ∷ rs) (u ∷ us) = Evolves r u × Follows rs us

Evolves-trans : (r u v : Interaction) → Evolves r u → Evolves u v → Evolves r v
Evolves-trans r u v (inl e) h = subst (λ z. Evolves z v) e h
Evolves-trans r u v (inr c) (inl e) = inr (c.0, (c.1.0, c.1.1, c.1.2, c.1.3, e ∙ c.1.4))
Evolves-trans r u v (inr (a, (s, x, now, k, e))) (inr (b, d)) =
    let q : is_pending u.status ≡ is_pending s = ap (λ z. is_pending z.status) e in
    absurd (cc (q, k, b))

Evolves-IsSound : (r u : Interaction) → Evolves r u → IsSound r → IsSound u
Evolves-IsSound r u (inl e) h = rw e h
Evolves-IsSound r u (inr (a, (s, x, now, k, e))) h = rw e (inr (k, ground arith))

All-Evolves : (us vs : List Interaction) → Follows us vs → All IsSound us → All IsSound vs
All-Evolves [] vs f h = f
All-Evolves (u ∷ us) [] f h = absurd f
All-Evolves (u ∷ us) (v ∷ vs) f h = (Evolves-IsSound u v f.0 h.0, All-Evolves us vs f.1 h.1)

pub Follows-refl : (rs : List Interaction) → Follows rs rs
Follows-refl [] = tt
Follows-refl (r ∷ rs) = (inl refl, Follows-refl rs)

pub Follows-trans : (rs us vs : List Interaction) → Follows rs us → Follows us vs → Follows rs vs
Follows-trans [] us vs f g = All-Evolves us vs g f
Follows-trans (r ∷ rs) [] vs f g = absurd f
Follows-trans (r ∷ rs) (u ∷ us) [] f g = absurd g
Follows-trans (r ∷ rs) (u ∷ us) (v ∷ vs) f g =
    (Evolves-trans r u v f.0 g.0, Follows-trans rs us vs f.1 g.1)

-- The statements of a transaction keep to this.
abbrev pub Keeps : {A : Type 0} → Tx A → Type 0
Keeps {A} m = (db db' : Db) (a : A) → m db ≡ ok (a, db') → Follows db.interactions db'.interactions

pub Keeps-bind :
    {A B : Type 0} (m : Tx A) (f : A → Tx B) → Keeps m → ((a : A) → Keeps (f a)) → Keeps (m >>= f)
Keeps-bind m f hm hf db db' b e = elim (Result-cases (m db)) [
  | inr (x, k) ↦ absurd (ground arith)
  | inl ((a, mid), k) ↦
      Follows-trans db.interactions mid.interactions db'.interactions (hm db mid a k)
        (hf a mid db' b (ground arith))
]

pub Keeps-pure : {A : Type 0} (a : A) → Keeps (pure a)
Keeps-pure a db db' b e =
    let q : db ≡ db' = ground arith in
    subst (λ z. Follows db.interactions z.interactions) q (Follows-refl db.interactions)

-- A transaction that commits keeps to it, and one that does not changes nothing.
pub transact-Follows :
    {A : Type 0} (m : Tx (Result A)) (db : Db)
    → Keeps m
    → Follows db.interactions (transact m db).1.interactions
transact-Follows m db h = elim (Result-cases (m db)) [
  | inr (x, k) ↦ rw (k, transact) (Follows-refl db.interactions)
  | inl ((a, mid), k) ↦ rw (k, transact) (h db mid a k)
]

-- Tables whose interactions are the same.
pub eq→Follows :
    (db db' : Db) → db'.interactions ≡ db.interactions → Follows db.interactions db'.interactions
eq→Follows db db' e = rw e (Follows-refl db.interactions)

close_rows-Follows :
    (test : Interaction → Bool) (s : Status) (action : Text) (now : ℕ) (rs : List Interaction)
    → is_pending s ≡ false
    → ((r : Interaction) → test r ≡ true → is_pending r.status ≡ true)
    → Follows rs (map (λ r. if test r then close_row s action now r else r) rs)
close_rows-Follows test s action now [] k h = tt
close_rows-Follows test s action now (r ∷ rs) k h = elim (Bool-cases (test r)) [
  | inl hit ↦
      rw hit (inr (h r hit, (s, action, now, k, refl)), close_rows-Follows test s action now rs k h)
  | inr miss ↦ rw miss (inl refl, close_rows-Follows test s action now rs k h)
]

pub close_interaction-Keeps :
    (s : Status) (action : Text) (now : ℕ) (user id : Text) (version : ℕ)
    → is_pending s ≡ false
    → Keeps (close_interaction s action now user id version)
unfolding close_interaction
close_interaction-Keeps s action now user id version k db db' n e =
    let test = is_open_at user id version in
    let q : map (λ r. if test r then close_row s action now r else r) db.interactions
        ≡ db'.interactions =
      ground arith in
    subst (Follows db.interactions) q
      (close_rows-Follows test s action now db.interactions k (λ r h. ground arith))
