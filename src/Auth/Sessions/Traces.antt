-- ===== src/Auth/Sessions/Traces.antt =====
-- Runs of the session manager, and what the periodic cleanup changes of them.
use roambench.Base.{
  ℕ, ◌+◌, ◌≤◌, ◌≡◌, refl, inl, inr, Option, none, some, List, [], ◌∷◌, ◌++◌, ⊤, arith, Bool-cases,
  Option-cases, ◌∙◌, sym,
}
use roambench.Base.Text.{Text, text_eq, text_eq_iff}
use roambench.Auth.Sessions.{
  Entry, Sessions, assign, create_session, validate_session, invalidate_session, unexpired, cleanup,
}

pub data Op : Type 0 where
  create : Option Text → Text → Op
  validate : Text → Op
  invalidate : Text → Op
  tick : Op

-- An operation at its time: what a validation answers, and the sessions after it.
unfoldable pub step : ℕ → ℕ → Op → Sessions → List (Option Text) × Sessions
step timeout now (create draw user) m = ([], (create_session timeout now draw user m).1)
step timeout now (validate token) m =
    let (a, m') = validate_session timeout now token m in (a ∷ [], m')
step timeout now (invalidate token) m = ([], invalidate_session token m)
step timeout now tick m = ([], cleanup now m)

unfoldable pub run : ℕ → List (ℕ × Op) → Sessions → List (Option Text) × Sessions
run timeout [] m = ([], m)
run timeout ((now, op) ∷ ops) m =
    let (a, m') = step timeout now op m in let (b, m'') = run timeout ops m' in (a ++ b, m'')

-- The clock does not go back.
abbrev pub IsOrdered : ℕ → List (ℕ × Op) → Type 0
IsOrdered start [] = ⊤
IsOrdered start ((now, op) ∷ ops) = (start ≤ now) × IsOrdered now ops

abbrev pub without_ticks : List (ℕ × Op) → List (ℕ × Op)
without_ticks [] = []
without_ticks ((now, create draw user) ∷ ops) = (now, create draw user) ∷ without_ticks ops
without_ticks ((now, validate token) ∷ ops) = (now, validate token) ∷ without_ticks ops
without_ticks ((now, invalidate token) ∷ ops) = (now, invalidate token) ∷ without_ticks ops
without_ticks ((now, tick) ∷ ops) = without_ticks ops

-- Two maps that no validation from a time on can tell apart.
abbrev Agree : ℕ → Sessions → Sessions → Type 0
Agree now m n = (k : Text) → unexpired now (m k) ≡ unexpired now (n k)

unexpired-later :
    (s t : ℕ) (o p : Option Entry)
    → s ≤ t
    → unexpired s o ≡ unexpired s p
    → unexpired t o ≡ unexpired t p
unexpired-later s t none none h e = refl
unexpired-later s t none (some y) h e = ground arith
unexpired-later s t (some x) none h e = ground arith
unexpired-later s t (some x) (some y) h e = ground arith

Agree-assign :
    (now : ℕ) (token : Text) (o : Option Entry) (m n : Sessions)
    → Agree now m n
    → Agree now (assign token o m) (assign token o n)
Agree-assign now token o m n h k = elim (Bool-cases (text_eq k token)) [
  | inl same ↦ rw same refl
  | inr other ↦ rw other (h k)
]

-- What a validation answers, and what it leaves, of an entry that has not run out.
abbrev name_of : Option Entry → Option Text
name_of none = none
name_of (some e) = some e.username

abbrev touched : ℕ → ℕ → Option Entry → Option Entry
touched timeout now none = none
touched timeout now (some e) = some (record e { expires_at = now + timeout })

validate_session-answer :
    (timeout now : ℕ) (token : Text) (m : Sessions)
    → (validate_session timeout now token m).0 ≡ name_of (unexpired now (m token))
unfolding validate_session
validate_session-answer timeout now token m = elim (Option-cases (m token)) [
  | inl missing ↦ ground arith
  | inr (e, found) ↦ ground arith
]

validate_session-map :
    (timeout now : ℕ) (token : Text) (m : Sessions) (k : Text)
    → unexpired now ((validate_session timeout now token m).1 k)
      ≡ unexpired now (assign token (touched timeout now (unexpired now (m token))) m k)
unfolding validate_session
validate_session-map timeout now token m k = elim (Option-cases (m token)) [
  | inl missing ↦ ground (arith, text_eq_iff k token)
  | inr (e, found) ↦ ground (arith, text_eq_iff k token)
]

validate_session-Agree :
    (timeout now : ℕ) (token : Text) (m n : Sessions)
    → Agree now m n
    → Agree now (validate_session timeout now token m).1 (validate_session timeout now token n).1
validate_session-Agree timeout now token m n h k =
    rw
      (
        validate_session-map timeout now token m k,
        validate_session-map timeout now token n k,
        h token,
      )
      (Agree-assign now token (touched timeout now (unexpired now (n token))) m n h k)

unexpired_twice : (now : ℕ) (o : Option Entry) → unexpired now (unexpired now o) ≡ unexpired now o
unexpired_twice now none = refl
unexpired_twice now (some e) = ground arith

step-Agree :
    (timeout now : ℕ) (op : Op) (m n : Sessions)
    → Agree now m n
    → ((step timeout now op m).0 ≡ (step timeout now op n).0)
      × Agree now (step timeout now op m).1 (step timeout now op n).1
unfolding step create_session invalidate_session cleanup
step-Agree timeout now (create none user) m n h = (refl, h)
step-Agree timeout now (create (some token) user) m n h = (refl, Agree-assign now token _ m n h)
step-Agree timeout now (validate token) m n h = (
  rw
      (
        validate_session-answer timeout now token m,
        validate_session-answer timeout now token n,
        h token,
      )
      refl,
  validate_session-Agree timeout now token m n h,
)
step-Agree timeout now (invalidate token) m n h = (refl, Agree-assign now token none m n h)
step-Agree timeout now tick m n h =
    (refl, λ k. unexpired_twice now (m k) ∙ h k ∙ sym (unexpired_twice now (n k)))

Agree-later : (s t : ℕ) (m n : Sessions) → s ≤ t → Agree s m n → Agree t m n
Agree-later s t m n o h k = unexpired-later s t (m k) (n k) o (h k)

Agree-tick :
    (timeout start now : ℕ) (m n : Sessions)
    → start ≤ now
    → Agree start m n
    → Agree now m (step timeout now tick n).1
unfolding step cleanup
Agree-tick timeout start now m n o h k =
    Agree-later start now m n o h k ∙ sym (unexpired_twice now (n k))

step-tick : (timeout now : ℕ) (n : Sessions) → (step timeout now tick n).0 ≡ []
unfolding step
step-tick timeout now n = refl

run-without_ticks :
    (timeout start : ℕ) (ops : List (ℕ × Op)) (m n : Sessions)
    → IsOrdered start ops
    → Agree start m n
    → (run timeout (without_ticks ops) m).0 ≡ (run timeout ops n).0
unfolding run
run-without_ticks timeout start [] m n o h = refl
run-without_ticks timeout start ((now, tick) ∷ ops) m n o h = rw (step-tick timeout now n) (
    run-without_ticks timeout now ops m (step timeout now tick n).1 o.1
      (Agree-tick timeout start now m n o.0 h))
run-without_ticks timeout start ((now, create draw user) ∷ ops) m n o h =
    let s = step-Agree timeout now (create draw user) m n (Agree-later start now m n o.0 h) in
    rw
      (
        s.0,
        run-without_ticks timeout now ops (step timeout now (create draw user) m).1
            (step timeout now (create draw user) n).1 o.1 s.1,
      )
      refl
run-without_ticks timeout start ((now, validate token) ∷ ops) m n o h =
    let s = step-Agree timeout now (validate token) m n (Agree-later start now m n o.0 h) in
    rw
      (
        s.0,
        run-without_ticks timeout now ops (step timeout now (validate token) m).1
            (step timeout now (validate token) n).1 o.1 s.1,
      )
      refl
run-without_ticks timeout start ((now, invalidate token) ∷ ops) m n o h =
    let s = step-Agree timeout now (invalidate token) m n (Agree-later start now m n o.0 h) in
    rw
      (
        s.0,
        run-without_ticks timeout now ops (step timeout now (invalidate token) m).1
            (step timeout now (invalidate token) n).1 o.1 s.1,
      )
      refl

-- The cleanup only frees memory: as long as the clock does not go back, every validation of a run
-- answers the same without it.
pub run_without_cleanup :
    (timeout start : ℕ) (ops : List (ℕ × Op)) (m : Sessions)
    → IsOrdered start ops
    → (run timeout (without_ticks ops) m).0 ≡ (run timeout ops m).0
run_without_cleanup timeout start ops m o = run-without_ticks timeout start ops m m o (λ k. refl)
