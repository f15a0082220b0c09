-- ===== src/ControlPlane/Interactions/History.antt =====
-- One operation on the tables of internal/controlplane/repository.go.
use roambench.Base.{ℕ, ◌≡◌}
use roambench.Base.Text.{Text}
use roambench.ControlPlane.Db.{RespondInput, Db}
use roambench.ControlPlane.Interactions.{CreateInput, Request}
use roambench.ControlPlane.Interactions.Respond.{respond}
use roambench.ControlPlane.Interactions.Close.{
  CancelInput, cancel_interaction, expire_due, cancel_session,
}
use roambench.ControlPlane.Interactions.Create.{create_interaction}
use roambench.ControlPlane.Interactions.Lifecycle.{Follows}
use roambench.ControlPlane.Interactions.Operations.{
  respond-Follows, cancel_interaction-Follows, expire_due-Follows, cancel_session-Follows,
  create_interaction-Follows,
}

-- One call of an operation, with any arguments, and with any outcome.
pub data Step (digest : Request → Text) (t u : Db) : Type 0 where
  create :
      (ids : ℕ → Text) (now : ℕ) (i : CreateInput)
      → u ≡ (create_interaction digest ids now i t).1
      → Step digest t u
  answer :
      (ids : ℕ → Text) (now : ℕ) (user id : Text) (i : RespondInput)
      → u ≡ (respond digest ids now user id i t).1
      → Step digest t u
  cancel :
      (ids : ℕ → Text) (now : ℕ) (user id : Text) (i : CancelInput)
      → u ≡ (cancel_interaction digest ids now user id i t).1
      → Step digest t u
  expire :
      (ids : ℕ → ℕ → Text) (now : ℕ) (user : Text)
      → u ≡ (expire_due ids now user t).1
      → Step digest t u
  cancel_all :
      (ids : ℕ → ℕ → Text) (now : ℕ) (user session reason : Text)
      → u ≡ (cancel_session ids now user session reason t).1
      → Step digest t u

-- Each row stays in its place and is left as it was, or is closed once.
pub Step-Follows :
    {digest : Request → Text} {t u : Db} → Step digest t u → Follows t.interactions u.interactions
Step-Follows {digest} {t} {u} (create ids now i e) =
    rw e (create_interaction-Follows digest ids now i t)
Step-Follows {digest} {t} {u} (answer ids now user id i e) =
    rw e (respond-Follows digest ids now user id i t)
Step-Follows {digest} {t} {u} (cancel ids now user id i e) =
    rw e (cancel_interaction-Follows digest ids now user id i t)
Step-Follows {digest} {t} {u} (expire ids now user e) = rw e (expire_due-Follows ids now user t)
Step-Follows {digest} {t} {u} (cancel_all ids now user session reason e) =
    rw e (cancel_session-Follows ids now user session reason t)
