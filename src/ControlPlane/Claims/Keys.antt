-- ===== src/ControlPlane/Claims/Keys.antt =====
-- The two unique keys of task_claims, under inserts and updates.
use roambench.Base.{
  ℕ, ◌≡◌, refl, ⊤, Bool, true, false, inl, inr, [], ◌∷◌, ◌++◌, map, arith, if◌then◌else◌, any,
  any-append, Bool-cases,
}
use roambench.Base.Text.{text_eq_sym}
use roambench.ControlPlane.Claims.{
  TaskClaim, ClaimTable, ClaimStatus, is_active, clashes, insert_claim, update_claims, renew,
  close_claim,
}
use roambench.ControlPlane.Errors.{ok}

-- No two rows of the table clash.
abbrev pub IsValid : ClaimTable → Type 0
IsValid [] = ⊤
IsValid (c ∷ t) = (any (clashes c) t ≡ false) × IsValid t

pub clashes_sym : (c d : TaskClaim) → clashes c d ≡ clashes d c
clashes_sym c d = ground (arith, text_eq_sym c.claim_id d.claim_id, text_eq_sym c.task_id d.task_id)

any-clashes-snoc :
    (c d : TaskClaim) (t : ClaimTable)
    → any (clashes c) t ≡ false
    → clashes d c ≡ false
    → any (clashes c) (t ++ d ∷ []) ≡ false
any-clashes-snoc c d t h k = rw any-append (ground (arith, clashes_sym c d))

snoc-IsValid :
    (c : TaskClaim) (t : ClaimTable) → any (clashes c) t ≡ false → IsValid t → IsValid (t ++ c ∷ [])
snoc-IsValid c [] h v = (refl, tt)
snoc-IsValid c (d ∷ t) h v =
    (any-clashes-snoc d c t v.0 (ground arith), snoc-IsValid c t (ground arith) v.1)

pub insert_claim-IsValid :
    (c : TaskClaim) (t u : ClaimTable) → insert_claim c t ≡ ok u → IsValid t → IsValid u
unfolding insert_claim
insert_claim-IsValid c t u e v = elim (Bool-cases (any (clashes c) t)) [
  | inl clash ↦ absurd (ground arith)
  | inr free ↦ let q : u ≡ t ++ c ∷ [] = ground arith in rw q (snoc-IsValid c t free v)
]

-- A change of a row that keeps its id and its task, and makes no closed row active.
abbrev pub IsTame : (TaskClaim → TaskClaim) → Type 0
IsTame g =
    (c : TaskClaim)
    → ((g c).claim_id ≡ c.claim_id)
      × ((g c).task_id ≡ c.task_id)
      × (is_active (g c).status ≡ true → is_active c.status ≡ true)

pub renew-IsTame : (now : ℕ) → IsTame (renew now)
renew-IsTame now c = (refl, refl, λ h. h)

pub close_claim-IsTame :
    (s : ClaimStatus) (now : ℕ) → is_active s ≡ false → IsTame (close_claim s now)
close_claim-IsTame s now h c = (refl, refl, λ k. cc)

pub if-IsTame :
    (test : TaskClaim → Bool) (g : TaskClaim → TaskClaim)
    → IsTame g
    → IsTame (λ c. if test c then g c else c)
if-IsTame test g h c = elim (Bool-cases (test c)) [
  | inl e ↦ rw e (h c)
  | inr e ↦ rw e (refl, refl, λ k. k)
]

clashes-IsTame :
    (g : TaskClaim → TaskClaim) (h : IsTame g) (c d : TaskClaim)
    → clashes c d ≡ false
    → clashes (g c) (g d) ≡ false
clashes-IsTame g h c d e = ground (arith, h c, h d)

any-clashes-map :
    (g : TaskClaim → TaskClaim) (h : IsTame g) (c : TaskClaim) (t : ClaimTable)
    → any (clashes c) t ≡ false
    → any (clashes (g c)) (map g t) ≡ false
any-clashes-map g h c [] e = refl
any-clashes-map g h c (d ∷ t) e = ground (arith, clashes-IsTame g h c d, any-clashes-map g h c t)

pub map-IsValid :
    (g : TaskClaim → TaskClaim) (h : IsTame g) (t : ClaimTable) → IsValid t → IsValid (map g t)
map-IsValid g h [] v = tt
map-IsValid g h (c ∷ t) v = (any-clashes-map g h c t v.0, map-IsValid g h t v.1)

pub update_claims-IsValid :
    (test : TaskClaim → Bool) (g : TaskClaim → TaskClaim) (h : IsTame g) (t : ClaimTable)
    → IsValid t
    → IsValid (update_claims test g t)
update_claims-IsValid test g h t v = map-IsValid _ (if-IsTame test g h) t v
