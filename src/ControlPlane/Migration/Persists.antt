-- ===== src/ControlPlane/Migration/Persists.antt =====
-- What no writer of the table of interactions takes back.
use roambench.Base.{
  ℕ, ◌≤◌, ◌≡◌, refl, ◌∙◌, Bool, true, false, ◌⊎◌, inl, inr, List, [], ◌∷◌, ◌++◌, map, ⊤, arith,
  if◌then◌else◌, Bool-cases,
}
use roambench.Base.Text.{Text}
use roambench.ControlPlane.Errors.{Result-cases, Result, ok}
use roambench.ControlPlane.Db.{
  is_pending, ResponseSchema, Interaction, Db, Tx, ◌>>=◌, pure, transact,
}
use roambench.ControlPlane.Interactions.Lifecycle.{Evolves, Follows}
use roambench.ControlPlane.Migration.{each}

-- What a request was when it was made: its keys, whom it is for, its risk, the answers it admits and its
-- times.
pub record Origin : Type 0 where
  pub request_id : Text
  pub username : Text
  pub checkpoint_id : Text
  pub session_id : Text
  pub adapter_kind : Text
  pub vendor_request_id : Text
  pub risk_class : Text
  pub response_schema : ResponseSchema
  pub created_at : ℕ
  pub expires_at : ℕ

abbrev pub origin : Interaction → Origin
origin r = record {
  request_id = r.request_id;
  username = r.username;
  checkpoint_id = r.checkpoint_id;
  session_id = r.session_id;
  adapter_kind = r.adapter_kind;
  vendor_request_id = r.vendor_request_id;
  risk_class = r.risk_class;
  response_schema = r.response_schema;
  created_at = r.created_at;
  expires_at = r.expires_at;
}

-- The row keeps its origin, its version does not fall, and it is not open if it was closed.
abbrev pub Persists : Interaction → Interaction → Type 0
Persists r u =
    (origin u ≡ origin r)
    × (r.row_version ≤ u.row_version)
    × ((is_pending r.status ≡ true) ⊎ (is_pending u.status ≡ false))

-- Every row persists in its place; others may come behind.
abbrev pub Grows : List Interaction → List Interaction → Type 0
Grows [] us = ⊤
Grows (r ∷ rs) [] = ⊥
Grows (r ∷ rs) (u ∷ us) = Persists r u × Grows rs us

Persists-refl : (r : Interaction) → Persists r r
Persists-refl r = elim (Bool-cases (is_pending r.status)) [
  | inl opened ↦ (refl, omega arith, inl opened)
  | inr closed ↦ (refl, omega arith, inr closed)
]

Persists-trans : (r u v : Interaction) → Persists r u → Persists u v → Persists r v
Persists-trans r u v (a, b, c) (d, e, f) = (d ∙ a, omega (arith, b, e), ground (arith, c, f))

pub Grows-refl : (rs : List Interaction) → Grows rs rs
Grows-refl [] = tt
Grows-refl (r ∷ rs) = (Persists-refl r, Grows-refl rs)

pub Grows-trans : (rs us vs : List Interaction) → Grows rs us → Grows us vs → Grows rs vs
Grows-trans [] us vs g h = tt
Grows-trans (r ∷ rs) [] vs g h = absurd g
Grows-trans (r ∷ rs) (u ∷ us) [] g h = absurd h
Grows-trans (r ∷ rs) (u ∷ us) (v ∷ vs) g h =
    (Persists-trans r u v g.0 h.0, Grows-trans rs us vs g.1 h.1)

pub Grows-append : (rs us : List Interaction) → Grows rs (rs ++ us)
Grows-append [] us = tt
Grows-append (r ∷ rs) us = (Persists-refl r, Grows-append rs us)

-- An update of the rows that a test picks.
pub Grows-map :
    (test : Interaction → Bool) (f : Interaction → Interaction) (rs : List Interaction)
    → ((r : Interaction) → test r ≡ true → Persists r (f r))
    → Grows rs (map (λ r. if test r then f r else r) rs)
Grows-map test f [] h = tt
Grows-map test f (r ∷ rs) h = elim (Bool-cases (test r)) [
  | inl hit ↦ rw hit (h r hit, Grows-map test f rs h)
  | inr miss ↦ rw miss (Persists-refl r, Grows-map test f rs h)
]

Evolves-Persists : (r u : Interaction) → Evolves r u → Persists r u
Evolves-Persists r u (inl e) = rw e (Persists-refl r)
Evolves-Persists r u (inr (opened, (s, action, now, closed, e))) =
    rw e (refl, omega arith, inl opened)

-- The operations on interactions let the table grow.
pub Follows-Grows : (rs us : List Interaction) → Follows rs us → Grows rs us
Follows-Grows [] us f = tt
Follows-Grows (r ∷ rs) [] f = absurd f
Follows-Grows (r ∷ rs) (u ∷ us) f = (Evolves-Persists r u f.0, Follows-Grows rs us f.1)

-- The statements of a transaction let the table grow.
abbrev pub LetsGrow : {A : Type 0} → Tx A → Type 0
LetsGrow {A} m = (db db' : Db) (a : A) → m db ≡ ok (a, db') → Grows db.interactions db'.interactions

-- Tables whose interactions are the same.
pub eq→Grows :
    (db db' : Db) → db'.interactions ≡ db.interactions → Grows db.interactions db'.interactions
eq→Grows db db' e = rw e (Grows-refl db.interactions)

pub LetsGrow-bind :
    {A B : Type 0} (m : Tx A) (f : A → Tx B)
    → LetsGrow m
    → ((a : A) → LetsGrow (f a))
    → LetsGrow (m >>= f)
LetsGrow-bind m f hm hf db db' b e = elim (Result-cases (m db)) [
  | inr (x, k) ↦ absurd (ground arith)
  | inl ((a, mid), k) ↦
      Grows-trans db.interactions mid.interactions db'.interactions (hm db mid a k)
        (hf a mid db' b (ground arith))
]

pub LetsGrow-pure : {A : Type 0} (a : A) → LetsGrow (pure a)
LetsGrow-pure a db db' b e = eq→Grows db db' (ground arith)

pub LetsGrow-each :
    {A : Type 0} (f : A → Tx ⊤) (xs : List A) → ((x : A) → LetsGrow (f x)) → LetsGrow (each f xs)
unfolding each
LetsGrow-each f [] h = LetsGrow-pure tt
LetsGrow-each f (x ∷ xs) h = LetsGrow-bind (f x) (λ _. each f xs) (h x) (λ _. LetsGrow-each f xs h)

-- A transaction lets the table grow, also one that is rolled back.
pub transact-Grows :
    {A : Type 0} (m : Tx (Result A)) (db : Db)
    → LetsGrow m
    → Grows db.interactions (transact m db).1.interactions
transact-Grows m db h = elim (Result-cases (m db)) [
  | inr (x, k) ↦ rw (k, transact) (Grows-refl db.interactions)
  | inl ((a, mid), k) ↦ rw (k, transact) (h db mid a k)
]
