-- ===== src/Runs.antt =====
-- The runs API of the control plane: apps/control-plane/internal/handlers/runs.go, on top of the
-- engine, and the rows of apps/control-plane/internal/db/runs.go.
pub mod Control
pub mod Parameters
pub mod Store
pub mod Start
