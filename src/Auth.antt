-- ===== src/Auth.antt =====
-- The control plane's accounts and access control: apps/control-plane/internal/db/users.go and auth.go
-- (the users, their sessions and API tokens) and apps/control-plane/internal/auth/auth.go (who may
-- do what).
pub mod Users
pub mod Access
