-- ===== src/ControlPlane/Risk.antt =====
-- Risk classes: internal/controlplane/risk.go.
use roambench.Base.{Bool, ◌||◌, if◌then◌else◌}
use roambench.Base.Text.{Text, codes, text_eq, trim_space, to_lower}

-- `NormalizeRiskClass`.
unfoldable pub normalize_risk_class : Text → Text
normalize_risk_class level =
    let l = to_lower (trim_space level) in
    if text_eq l (codes "r0")
    then codes "low"
    else if text_eq l (codes "r1")
    then codes "medium"
    else if text_eq l (codes "r2") || text_eq l (codes "high_risk")
    then codes "high"
    else if text_eq l (codes "r3")
    then codes "critical"
    else l

-- `IsHighRisk`.
unfoldable pub is_high_risk : Text → Bool
is_high_risk level =
    let l = normalize_risk_class level in text_eq l (codes "high") || text_eq l (codes "critical")
