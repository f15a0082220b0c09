-- ===== src/Board/Projected/Agreement.antt =====
-- The two paths of a decision, in the control plane and on the board.
use roambench.Base.Text.{Text}
use roambench.Board.{Board}
