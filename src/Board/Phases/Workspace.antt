-- ===== src/Board/Phases/Workspace.antt =====
-- References to workspaces in internal/server/project_control.go: a kind, or a kind and a directory
-- behind a colon. `filepath.Clean` is an argument.
use roambench.Base.{◌&&◌, not, [], ◌∷◌, ◌++◌, any, ◌==◌, if◌then◌else◌}
use roambench.Base.Text.{Text, codes, text_eq, is_empty, trim_space, cut}
use roambench.Board.Words.{normal}
use roambench.Board.Runbook.{RunbookPhase}

-- `projectControlPhaseWorkspaceKind`.
unfoldable pub workspace_kind : RunbookPhase → Text
workspace_kind phase =
    if phase.scoped_write then codes "shared_repo" else codes "read_only_snapshot"

-- `normalizeProjectControlWorkspaceKind`.
unfoldable pub normalize_workspace_kind : Text → Text
unfolding normal
normalize_workspace_kind value =
    let v = normal value in
    if text_eq v (codes "shared_repo")
    then codes "shared_repo"
    else if text_eq v (codes "read_only_snapshot")
    then codes "read_only_snapshot"
    else []

module _ (clean : Text → Text) where
  -- `projectControlWorkspaceRef`.
  unfoldable pub workspace_ref : Text → Text → Text
  unfolding normalize_workspace_kind
  workspace_ref kind dir =
      let k = normalize_workspace_kind kind in
      if is_empty k
      then []
      else if is_empty (trim_space dir)
      then k
      else k ++ b':' ∷ clean (trim_space dir)

  -- `projectControlParseWorkspaceRef`. Before a colon that stands first there is no kind, so the
  -- test `index > 0` is one that the kind is not empty.
  unfoldable pub parse_workspace_ref : Text → Text × Text
  unfolding normalize_workspace_kind
  parse_workspace_ref ref =
      let r = trim_space ref in
      let (before, after) = cut b':' r in
      let kind = normalize_workspace_kind before in
      if any (λ c. c == b':') r && not (is_empty kind)
      then (kind, if is_empty (trim_space after) then [] else clean (trim_space after))
      else (normalize_workspace_kind r, [])
