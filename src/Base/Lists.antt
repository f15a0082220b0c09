-- ===== src/Base/Lists.antt =====
-- Lists measured by native numbers, Boolean searches, and predicates by recursion.
use Prim.Native.Nat.{ℕ, zero, suc, ◌+◌, ◌≤◌}
use mathlib.Core.Path.{◌≡◌, refl, ap, ◌∙◌, subst}
use mathlib.Core.Logic.{inl, inr}
use mathlib.Core.Bool.{Bool, true, false, ◌||◌}
use mathlib.Core.List.{List, [], ◌∷◌, ◌++◌, map}
use mathlib.Core.Option.{Option, none, some}
use native.Mathlib.Omega.{arith}
use roambench.Base.Tests.{if◌then◌else◌, Bool-cases}

module _ {ℓ} {A : Type ℓ} where
  abbrev pub length : List A → ℕ
  length [] = 0
  length (x ∷ xs) = suc (length xs)

  abbrev pub take : ℕ → List A → List A
  take zero xs = []
  take (suc n) [] = []
  take (suc n) (x ∷ xs) = x ∷ take n xs

  abbrev pub drop : ℕ → List A → List A
  drop zero xs = xs
  drop (suc n) [] = []
  drop (suc n) (x ∷ xs) = drop n xs

  abbrev pub replicate : ℕ → A → List A
  replicate zero a = []
  replicate (suc n) a = a ∷ replicate n a

  abbrev pub get_elem? : List A → ℕ → Option A
  get_elem? [] i = none
  get_elem? (x ∷ xs) zero = some x
  get_elem? (x ∷ xs) (suc i) = get_elem? xs i

  -- The first element that passes the test.
  abbrev pub find : (A → Bool) → List A → Option A
  find p [] = none
  find p (x ∷ xs) = if p x then some x else find p xs

  abbrev pub any : (A → Bool) → List A → Bool
  any p [] = false
  any p (x ∷ xs) = p x || any p xs

  abbrev pub filter : (A → Bool) → List A → List A
  filter p [] = []
  filter p (x ∷ xs) = if p x then x ∷ filter p xs else filter p xs

  abbrev pub count : (A → Bool) → List A → ℕ
  count p [] = 0
  count p (x ∷ xs) = let rest = count p xs in if p x then suc rest else rest

  abbrev pub All {κ} : (A → Type κ) → List A → Type κ
  All P [] = Unit
  All P (x ∷ xs) = P x × All P xs

module _ {ℓ} {A : Type ℓ} where
  pub length-append : (xs ys : List A) → length (xs ++ ys) ≡ length xs + length ys
  length-append [] ys = omega arith
  length-append (x ∷ xs) ys = omega (arith, length-append xs ys)

  pub any-append : (p : A → Bool) (xs ys : List A) → any p (xs ++ ys) ≡ (any p xs || any p ys)
  any-append p [] ys = refl
  any-append p (x ∷ xs) ys = ground (arith, any-append p xs ys)

  pub All-append {κ} : (P : A → Type κ) (xs ys : List A) → All P xs → All P ys → All P (xs ++ ys)
  All-append P [] ys hx hy = hy
  All-append P (x ∷ xs) ys hx hy = (hx.0, All-append P xs ys hx.1 hy)

  pub take-append-drop : (n : ℕ) (xs : List A) → take n xs ++ drop n xs ≡ xs
  take-append-drop zero xs = refl
  take-append-drop (suc n) [] = refl
  take-append-drop (suc n) (x ∷ xs) = ap (λ ys. x ∷ ys) (take-append-drop n xs)

  pub length-take : (n : ℕ) (xs : List A) → n ≤ length xs → length (take n xs) ≡ n
  length-take zero xs h = refl
  length-take (suc n) [] h = elim h [ ]
  length-take (suc n) (x ∷ xs) h = omega (arith, length-take n xs)

  pub All-take {κ} : (P : A → Type κ) (n : ℕ) (xs : List A) → All P xs → All P (take n xs)
  All-take P zero xs h = tt
  All-take P (suc n) [] h = tt
  All-take P (suc n) (x ∷ xs) h = (h.0, All-take P n xs h.1)

  pub All-drop {κ} : (P : A → Type κ) (n : ℕ) (xs : List A) → All P xs → All P (drop n xs)
  All-drop P zero xs h = h
  All-drop P (suc n) [] h = tt
  All-drop P (suc n) (x ∷ xs) h = All-drop P n xs h.1

  pub All-map {κ μ} :
      (P : A → Type κ) (Q : A → Type μ) (xs : List A) → ((x : A) → P x → Q x) → All P xs → All Q xs
  All-map P Q [] f h = tt
  All-map P Q (x ∷ xs) f h = (f x h.0, All-map P Q xs f h.1)

module _ {ℓ} {A : Type ℓ} where
  pub count-filter : (p q : A → Bool) (t : List A) → count p (filter q t) ≤ count p t
  count-filter p q [] = omega arith
  count-filter p q (r ∷ t) = ground (arith, count-filter p q t)

  -- An update that keeps what is tested.
  pub count-map :
      (p q : A → Bool) (f : A → A) (t : List A)
      → ((r : A) → p (f r) ≡ p r)
      → count p (map (λ r. if q r then f r else r) t) ≡ count p t
  count-map p q f [] same = refl
  count-map p q f (r ∷ t) same = ground (arith, count-map p q f t same, same r)

  pub count-snoc :
      (p : A → Bool) (t : List A) (r : A)
      → count p (t ++ r ∷ []) ≡ count p t + (if p r then 1 else 0)
  count-snoc p [] r = ground arith
  count-snoc p (x ∷ t) r = ground (arith, count-snoc p t r)

  pub count-none : (p : A → Bool) (t : List A) → any p t ≡ false → count p t ≡ 0
  count-none p [] h = refl
  count-none p (x ∷ t) h = ground (arith, count-none p t)

  pub any-find : (p : A → Bool) (t : List A) → find p t ≡ none → any p t ≡ false
  any-find p [] h = refl
  any-find p (x ∷ t) h = ground (arith, any-find p t)

  test_updated :
      (p q : A → Bool) (f : A → A) (r : A)
      → ((z : A) → p (f z) ≡ p z)
      → p (if q r then f r else r) ≡ p r
  test_updated p q f r same = elim (Bool-cases (q r)) [ inl y ↦ rw y (same r) | inr n ↦ rw n refl ]

  pub find-update :
      (p q : A → Bool) (f : A → A) (t : List A) (a : A)
      → ((r : A) → p (f r) ≡ p r)
      → find p t ≡ some a
      → find p (map (λ r. if q r then f r else r) t) ≡ some (if q a then f a else a)
  find-update p q f [] a same h = absurd (ground arith)
  find-update p q f (r ∷ t) a same h = elim (Bool-cases (p r)) [
    | inl hit ↦
        let keep : p (if q r then f r else r) ≡ true = test_updated p q f r same ∙ hit in
        let found : r ≡ a = ground arith in rw keep (ap (λ z. some (if q z then f z else z)) found)
    | inr miss ↦
        let keep : p (if q r then f r else r) ≡ false = test_updated p q f r same ∙ miss in
        rw keep (find-update p q f t a same (ground arith))
  ]

  pub find-snoc :
      (p : A → Bool) (t : List A) (r : A)
      → find p t ≡ none
      → p r ≡ true
      → find p (t ++ r ∷ []) ≡ some r
  find-snoc p [] r h own = ground arith
  find-snoc p (x ∷ t) r h own = ground (arith, find-snoc p t r)

  pub find-All {κ} :
      (P : A → Type κ) (p : A → Bool) (t : List A) (a : A) → All P t → find p t ≡ some a → P a
  find-All P p [] a all h = absurd (ground arith)
  find-All P p (x ∷ t) a all h = elim (Bool-cases (p x)) [
    | inl hit ↦ let found : x ≡ a = ground arith in subst P found all.0
    | inr miss ↦ find-All P p t a all.1 (ground arith)
  ]

  pub count-some : (p : A → Bool) (t : List A) → any p t ≡ true → 1 ≤ count p t
  count-some p [] h = absurd (ground arith)
  count-some p (x ∷ t) h = ground (arith, count-some p t)
