-- ===== src/Auth/Sessions/Tests.antt =====
-- Runs of the session manager on concrete data, and instances of its theorems.
use roambench.Base.{◌≡◌, refl, some, none, [], ◌∷◌, List, ℕ, arith}
use roambench.Base.Text.{Text, codes, text_eq}
use roambench.Auth.Sessions.{
  no_sessions, create_session, validate_session, invalidate_session, cleanup, Sessions,
}
use roambench.Auth.Sessions.Traces.{
  Op, create, validate, tick, run, without_ticks, run_without_cleanup, step,
}
use roambench.Auth.Sessions.Revocation.{
  validate_session-invalidated, validate_session-created, IsCreatedFor,
}

abbrev token : Text
token = codes "t1"

abbrev user : Text
user = codes "ian"

-- Signed in at 0 with a timeout of 10: used at 8, cleaned at 12, used at 17, run out at 28.
abbrev day : List (ℕ × Op)
day =
    (0, create (some token) user)
    ∷ (8, validate token)
    ∷ (12, tick)
    ∷ (17, validate token)
    ∷ (28, tick)
    ∷ (28, validate token)
    ∷ []

day-answers : (run 10 day no_sessions).0 ≡ some user ∷ some user ∷ none ∷ []
unfolding run step create_session validate_session cleanup text_eq
day-answers = refl

run_without_cleanup_example :
    (run 10 (without_ticks day) no_sessions).0 ≡ (run 10 day no_sessions).0
run_without_cleanup_example = run_without_cleanup 10 0 day no_sessions (ground arith)

abbrev signed_in : Sessions
signed_in = (run 10 ((0, create (some token) user) ∷ []) no_sessions).1

validate_session-invalidated_example :
    (validate_session 10 5 token
      (run 10
        ((3, create (some (codes "t2")) user) ∷ (4, tick) ∷ [])
        (invalidate_session token signed_in)).1).0
    ≡ none
validate_session-invalidated_example =
    validate_session-invalidated 10 5 token ((3, create (some (codes "t2")) user) ∷ (4, tick) ∷ [])
      signed_in (ground arith)

validate_signed_in : (validate_session 10 5 token signed_in).0 ≡ some user
unfolding validate_session run step create_session text_eq
validate_signed_in = refl

validate_session-created_example : IsCreatedFor user token ((0, create (some token) user) ∷ [])
validate_session-created_example =
    validate_session-created 10 5 token user ((0, create (some token) user) ∷ []) validate_signed_in
