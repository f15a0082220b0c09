-- ===== src/ControlPlane/Claims/Sweep.antt =====
-- The sweep over stale leases (internal/controlplane/claims.go), set against one update of the table.
use mathlib.Core.List.{append_assoc}
use roambench.Base.{
  ℕ, ◌≡◌, refl, Bool, true, false, inl, inr, [], ◌∷◌, ◌++◌, map, arith, any, filter, count, All,
  Bool-cases,
}
use roambench.Base.Text.{Text, text_eq, text_eq_refl, text_eq_sym}
use roambench.ControlPlane.Claims.{
  TaskClaim, ClaimTable, expired, is_active, clashes, update_claims, close_claim, is_stale,
  is_active_id, expire_each, expire_stale_claims,
}
use roambench.ControlPlane.Claims.Keys.{IsValid}

-- No row of the table has this id.
abbrev Lacks : Text → ClaimTable → Type 0
Lacks id t = any (λ d. text_eq id d.claim_id) t ≡ false

-- No id of the first table stands in the second.
abbrev Apart : ClaimTable → ClaimTable → Type 0
Apart t u = All (λ c. Lacks c.claim_id t) u

Lacks-of-clashes : (c : TaskClaim) (t : ClaimTable) → any (clashes c) t ≡ false → Lacks c.claim_id t
Lacks-of-clashes c [] h = refl
Lacks-of-clashes c (d ∷ t) h = ground (arith, Lacks-of-clashes c t)

Lacks-snoc :
    (id : Text) (c : TaskClaim) (t : ClaimTable)
    → Lacks id t
    → text_eq id c.claim_id ≡ false
    → Lacks id (t ++ c ∷ [])
Lacks-snoc id c [] h e = ground arith
Lacks-snoc id c (d ∷ t) h e = ground (arith, Lacks-snoc id c t)

Apart-snoc :
    (c c' : TaskClaim) (pre suf : ClaimTable)
    → c'.claim_id ≡ c.claim_id
    → Apart pre suf
    → any (clashes c) suf ≡ false
    → Apart (pre ++ c' ∷ []) suf
Apart-snoc c c' pre [] e a h = tt
Apart-snoc c c' pre (d ∷ suf) e a h = (
  Lacks-snoc d.claim_id c' pre a.0 (rw e (ground (arith, text_eq_sym c.claim_id d.claim_id))),
  Apart-snoc c c' pre suf e a.1 (ground arith),
)

module _ (now : ℕ) where
  -- An update by an id that no row has changes nothing.
  update-Lacks :
      (id : Text) (t : ClaimTable)
      → Lacks id t
      → update_claims (is_active_id id) (close_claim expired now) t ≡ t
  update-Lacks id [] h = refl
  update-Lacks id (d ∷ t) h = ground (arith, update-Lacks id t, text_eq_sym id d.claim_id)

  count-Lacks : (id : Text) (t : ClaimTable) → Lacks id t → count (is_active_id id) t ≡ 0
  count-Lacks id [] h = refl
  count-Lacks id (d ∷ t) h = ground (arith, count-Lacks id t, text_eq_sym id d.claim_id)

  -- The update for one stale row changes that row alone, and affects one row.
  update-stale :
      (c : TaskClaim) (pre suf : ClaimTable)
      → is_active c.status ≡ true
      → Lacks c.claim_id pre
      → Lacks c.claim_id suf
      → update_claims (is_active_id c.claim_id) (close_claim expired now) (pre ++ c ∷ suf)
        ≡ (pre ++ close_claim expired now c ∷ []) ++ suf
  update-stale c [] suf a h k =
      ground (arith, text_eq_refl c.claim_id, update-Lacks c.claim_id suf k)
  update-stale c (d ∷ pre) suf a h k =
      ground (arith, update-stale c pre suf a, text_eq_sym c.claim_id d.claim_id)

  count-stale :
      (c : TaskClaim) (pre suf : ClaimTable)
      → is_active c.status ≡ true
      → Lacks c.claim_id pre
      → Lacks c.claim_id suf
      → count (is_active_id c.claim_id) (pre ++ c ∷ suf) ≡ 1
  count-stale c [] suf a h k = ground (arith, text_eq_refl c.claim_id, count-Lacks c.claim_id suf k)
  count-stale c (d ∷ pre) suf a h k =
      ground (arith, count-stale c pre suf a, text_eq_sym c.claim_id d.claim_id)

  module _ (p : TaskClaim → Bool)
      (sound : (c : TaskClaim) → p c ≡ true → is_active c.status ≡ true) where
    expire_each-split :
        (pre suf : ClaimTable)
        → Apart pre suf
        → IsValid suf
        → expire_each now (filter p suf) (pre ++ suf) ≡ (
          map (close_claim expired now) (filter p suf),
          pre ++ update_claims p (close_claim expired now) suf,
        )
    unfolding expire_each
    expire_each-split pre [] a v = refl
    expire_each-split pre (c ∷ suf) a v =
        let f = close_claim expired now in
        let u = update_claims p f suf in
        elim (Bool-cases (p c)) [
          | inr keep ↦
              let ih =
                expire_each-split (pre ++ c ∷ []) suf (Apart-snoc c c pre suf refl a.1 v.0) v.1 in
              rw keep (cc (ih, append_assoc pre (c ∷ []) suf, append_assoc pre (c ∷ []) u))
          | inl stale ↦
              let lone = Lacks-of-clashes c suf v.0 in
              let ih =
                expire_each-split (pre ++ f c ∷ []) suf (Apart-snoc c (f c) pre suf refl a.1 v.0)
                  v.1 in
              rw
                (
                  stale,
                  update-stale c pre suf (sound c stale) a.0 lone,
                  count-stale c pre suf (sound c stale) a.0 lone,
                )
                (cc (ih, append_assoc pre (f c ∷ []) u))
        ]

Apart-nil : (t : ClaimTable) → Apart [] t
Apart-nil [] = tt
Apart-nil (c ∷ t) = (refl, Apart-nil t)

-- On a table that keeps its unique keys the sweep closes exactly the stale rows, each once, returns
-- them in the table's order, and leaves every other row as it was.
pub expire_stale_claims-eq-update :
    (now : ℕ) (user : Text) (t : ClaimTable)
    → IsValid t
    → expire_stale_claims now user t ≡ (
      map (close_claim expired now) (filter (is_stale now user) t),
      update_claims (is_stale now user) (close_claim expired now) t,
    )
unfolding expire_stale_claims
expire_stale_claims-eq-update now user t v =
    expire_each-split now (is_stale now user) (λ c h. ground arith) [] t (Apart-nil t) v

update-stale_free :
    (now : ℕ) (user : Text) (t : ClaimTable)
    → any (is_stale now user) (update_claims (is_stale now user) (close_claim expired now) t)
      ≡ false
update-stale_free now user [] = refl
update-stale_free now user (c ∷ t) = elim (Bool-cases (is_stale now user c)) [
  | inl stale ↦ rw (stale, update-stale_free now user t)
  | inr fresh ↦ rw (fresh, fresh, update-stale_free now user t)
]

-- After the sweep for a user, or for all users under the empty name, no active lease that the
-- sweep covers has passed its expiry.
pub expire_stale_claims_complete :
    (now : ℕ) (user : Text) (t : ClaimTable)
    → IsValid t
    → any (is_stale now user) (expire_stale_claims now user t).1 ≡ false
expire_stale_claims_complete now user t v =
    rw (expire_stale_claims-eq-update now user t v) (update-stale_free now user t)
