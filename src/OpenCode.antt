-- ===== src/OpenCode.antt =====
-- The OpenCode backend: its arguments in engine/cli/opencode/opencode.go, and its line parser in
-- engine/cli/opencode/parse.go.
pub mod Args
pub mod Parse
