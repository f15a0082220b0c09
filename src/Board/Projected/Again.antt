-- ===== src/Board/Projected/Again.antt =====
-- A projection that is applied again.
use roambench.Base.Text.{Text}
use roambench.ControlPlane.Db.{Db}
use roambench.Board.{Board}
