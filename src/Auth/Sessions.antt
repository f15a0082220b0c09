-- ===== src/Auth/Sessions.antt =====
-- Signed-in browsers: internal/auth/session.go. The map from tokens to entries is a function. The clock
-- and the token that is drawn are arguments; the mutex makes each operation one step. Times are
-- nanoseconds.
pub mod Traces
pub mod Revocation
mod Tests
use roambench.Base.{ℕ, ◌+◌, Option, none, some, ltb, if◌then◌else◌}
use roambench.Base.Text.{Text, text_eq}

-- `sessionEntry`.
pub record Entry : Type 0 where
  pub username : Text
  pub expires_at : ℕ

-- `map[string]sessionEntry`.
abbrev pub Sessions : Type 0
Sessions = Text → Option Entry

abbrev pub no_sessions : Sessions
no_sessions k = none

-- `m[k] = e`, or `delete(m, k)` for `none`.
abbrev pub assign : Text → Option Entry → Sessions → Sessions
assign token e m k = if text_eq k token then e else m k

-- `CreateSession`: the token, `none` where no random bytes could be read.
unfoldable pub create_session : ℕ → ℕ → Option Text → Text → Sessions → Option Text × Sessions
create_session timeout now none user m = (none, m)
create_session timeout now (some token) user m =
    (some token, assign token (some (record { username = user; expires_at = now + timeout })) m)

-- `ValidateSession`: the user, `none` for ErrSessionExpired.
unfoldable pub validate_session : ℕ → ℕ → Text → Sessions → Option Text × Sessions
validate_session timeout now token m = elim (m token) [
  | none ↦ (none, m)
  | some e ↦
      if ltb e.expires_at now
      then (none, assign token none m)
      else (some e.username, assign token (some (record e { expires_at = now + timeout })) m)
]

-- `InvalidateSession`.
unfoldable pub invalidate_session : Text → Sessions → Sessions
invalidate_session token m = assign token none m

-- The entry, unless it has run out.
abbrev pub unexpired : ℕ → Option Entry → Option Entry
unexpired now none = none
unexpired now (some e) = if ltb e.expires_at now then none else some e

-- One round of `cleanupLoop`.
unfoldable pub cleanup : ℕ → Sessions → Sessions
cleanup now m k = unexpired now (m k)
