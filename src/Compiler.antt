-- ===== src/Compiler.antt =====
-- apps/control-plane/internal/compiler/compiler.go: the compiler from plans to k6 scripts.
pub mod Quoting
pub mod Profiles
pub mod Scenarios
