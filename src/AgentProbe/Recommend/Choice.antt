-- ===== src/AgentProbe/Recommend/Choice.antt =====
-- What is recommended, and when nothing is.
use roambench.Base.{
  ◌≡◌, ◌≢◌, refl, sym, ◌∙◌, subst, Bool, true, false, ◌&&◌, not, none, some, inl, inr, List, [],
  ◌∷◌, find, All, All-append, arith, Bool-cases, Option-cases, ◌↔◌,
}
use roambench.Base.Text.{Text, text_eq, text_eq_iff, contains}
use roambench.AgentProbe.Recommend.{
  Agent, Tier, Recommendation, is_installed, first_installed, first_installed_excluding,
  light_priority, heavy_pair, recommend_pair, recommendations,
}

-- Worker and reviewer are installed, listed and different.
pub record IsSound (priority : List Text) (installed : Text → Bool) (r : Recommendation)
    : Type 0 where
  pub worker_installed : installed r.worker_label ≡ true
  pub reviewer_installed : installed r.reviewer_label ≡ true
  pub worker_listed : contains priority r.worker_label ≡ true
  pub reviewer_listed : contains priority r.reviewer_label ≡ true
  pub distinct : r.worker_label ≢ r.reviewer_label

find-some :
    (p : Text → Bool) (ls : List Text) (l : Text)
    → find p ls ≡ some l
    → (p l ≡ true) × (contains ls l ≡ true)
unfolding contains
find-some p [] l e = absurd (ground arith)
find-some p (x ∷ ls) l e = elim (Bool-cases (p x)) [
  | inl hit ↦
      let same : x ≡ l = ground arith in
      (subst (λ z. p z ≡ true) same hit, ground (arith, text_eq_iff x l))
  | inr miss ↦ let h = find-some p ls l (ground arith) in (h.0, ground (arith, h.1))
]

find-none :
    (p q : Text → Bool) (ls : List Text)
    → ((l : Text) → q l ≡ true → p l ≡ true)
    → find p ls ≡ none
    → find q ls ≡ none
find-none p q [] h e = refl
find-none p q (x ∷ ls) h e = elim (Bool-cases (p x)) [
  | inl hit ↦ absurd (ground arith)
  | inr miss ↦ elim (Bool-cases (q x)) [
    | inl bad ↦ absurd (ground (arith, h x bad))
    | inr out ↦ rw out (find-none p q ls h (ground arith))
  ]
]

IsSound-pair :
    (priority : List Text) (installed : Text → Bool) (t : Tier) (w r : Text)
    → (installed w ≡ true) × (contains priority w ≡ true)
    → ((not (text_eq r w) && installed r) ≡ true) × (contains priority r ≡ true)
    → IsSound priority installed (record { tier = t; worker_label = w; reviewer_label = r })
IsSound-pair priority installed t w r a b = record {
  worker_installed = a.0;
  reviewer_installed = ground (arith, b.0);
  worker_listed = a.1;
  reviewer_listed = b.1;
  distinct = λ same. ground (arith, b.0, text_eq_iff r w);
}

abbrev advice : Tier → Text → Text → Recommendation
advice t w r = record { tier = t; worker_label = w; reviewer_label = r }

-- The three outcomes.
recommend_pair-no_worker :
    (priority : List Text) (installed : Text → Bool) (s t : Tier)
    → find installed priority ≡ none
    → recommend_pair priority installed s t ≡ []
unfolding recommend_pair first_installed first_installed_excluding
recommend_pair-no_worker priority installed s t e = ground arith

recommend_pair-no_reviewer :
    (priority : List Text) (installed : Text → Bool) (s t : Tier) (w : Text)
    → find installed priority ≡ some w
    → find (λ l. not (text_eq l w) && installed l) priority ≡ none
    → recommend_pair priority installed s t ≡ []
unfolding recommend_pair first_installed first_installed_excluding
recommend_pair-no_reviewer priority installed s t w e f = ground arith

recommend_pair-both :
    (priority : List Text) (installed : Text → Bool) (s t : Tier) (w r : Text)
    → find installed priority ≡ some w
    → find (λ l. not (text_eq l w) && installed l) priority ≡ some r
    → recommend_pair priority installed s t ≡ advice s w r ∷ advice t w r ∷ []
unfolding recommend_pair first_installed first_installed_excluding
recommend_pair-both priority installed s t w r e f = ground arith

-- The recommendations are two sound ones with the tiers that were asked for, or none.
recommend_pair-All :
    (P : Recommendation → Type 0) (priority : List Text) (installed : Text → Bool) (s t : Tier)
    → ((w r : Text) → IsSound priority installed (advice s w r) → P (advice s w r))
    → ((w r : Text) → IsSound priority installed (advice t w r) → P (advice t w r))
    → All P (recommend_pair priority installed s t)
recommend_pair-All P priority installed s t f g = elim (Option-cases (find installed priority)) [
  | inl no_worker ↦ rw (recommend_pair-no_worker priority installed s t no_worker) tt
  | inr (w, worker) ↦ elim (Option-cases (find (λ l. not (text_eq l w) && installed l) priority)) [
    | inl no_reviewer ↦
        rw (recommend_pair-no_reviewer priority installed s t w worker no_reviewer) tt
    | inr (r, reviewer) ↦
        let a = find-some installed priority w worker in
        let b = find-some (λ l. not (text_eq l w) && installed l) priority r reviewer in
        rw (recommend_pair-both priority installed s t w r worker reviewer) (
          f w r (IsSound-pair priority installed s w r a b),
          (g w r (IsSound-pair priority installed t w r a b), tt),
        )
  ]
]

-- A recommendation suits its tier: the light tiers choose from the light list, the heavy ones from the pair.
abbrev pub Suits : List Agent → Recommendation → Type 0
Suits agents r = elim r.tier [
  | Tier.t1 ↦ IsSound light_priority (is_installed agents) r
  | Tier.t2 ↦ IsSound light_priority (is_installed agents) r
  | Tier.t3 ↦ IsSound heavy_pair (is_installed agents) r
  | Tier.t4 ↦ IsSound heavy_pair (is_installed agents) r
]

-- What is recommended for a tier is a worker and a reviewer that are both installed, are both on the list of
-- the tier, and differ.
pub recommendations-Suits : (agents : List Agent) → All (Suits agents) (recommendations agents)
unfolding recommendations
recommendations-Suits agents =
    All-append (Suits agents) _ _
      (recommend_pair-All (Suits agents) light_priority (is_installed agents) Tier.t1 Tier.t2
        (λ w r h. h) (λ w r h. h))
      (recommend_pair-All (Suits agents) heavy_pair (is_installed agents) Tier.t3 Tier.t4
        (λ w r h. h) (λ w r h. h))

find-none_of :
    (p : Text → Bool) (ls : List Text) (l : Text)
    → find p ls ≡ none
    → contains ls l ≡ true
    → p l ≡ false
unfolding contains
find-none_of p [] l e c = absurd (ground arith)
find-none_of p (x ∷ ls) l e c = elim (Bool-cases (p x)) [
  | inl hit ↦ absurd (ground arith)
  | inr miss ↦ elim (Bool-cases (text_eq x l)) [
    | inl same ↦ subst (λ z. p z ≡ false) ((text_eq_iff x l).0 same) miss
    | inr other ↦ find-none_of p ls l (ground arith) (ground arith)
  ]
]

-- A pair of tiers goes without a recommendation exactly when no two different labels of its list are installed.
pub recommend_pair_iff_none :
    (priority : List Text) (installed : Text → Bool) (s t : Tier)
    → (recommend_pair priority installed s t ≡ []) ↔ (
        (a b : Text)
        → contains priority a ≡ true
        → contains priority b ≡ true
        → installed a ≡ true
        → installed b ≡ true
        → a ≡ b)
recommend_pair_iff_none priority installed s t = elim (Option-cases (find installed priority)) [
  | inl no_worker ↦ (
    λ e a b ca cb ia ib. absurd (ground (arith, find-none_of installed priority a no_worker ca)),
    λ h. recommend_pair-no_worker priority installed s t no_worker,
  )
  | inr (w, worker) ↦
      let test = λ (l : Text). not (text_eq l w) && installed l in
      elim (Option-cases (find test priority)) [
        | inl no_reviewer ↦ (
          λ e a b ca cb ia ib.
              let qa : a ≡ w =
                ground (arith, find-none_of test priority a no_reviewer ca, text_eq_iff a w) in
              let qb : b ≡ w =
                ground (arith, find-none_of test priority b no_reviewer cb, text_eq_iff b w) in
              qa ∙ sym qb,
          λ h. recommend_pair-no_reviewer priority installed s t w worker no_reviewer,
        )
        | inr (r, reviewer) ↦
            let c = find-some installed priority w worker in
            let d = find-some test priority r reviewer in
            (
              λ e.
                  absurd (
                    ground (arith, recommend_pair-both priority installed s t w r worker reviewer)),
              λ h.
                  absurd
                    (ground (arith, d.0, text_eq_iff r w, h r w d.1 c.1 (ground (arith, d.0)) c.0)),
            )
      ]
]
