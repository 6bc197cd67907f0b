-- ===== src/Codex.antt =====
-- The Codex backend: its arguments in engine/cli/codex/codex.go, and its line parser
-- in engine/cli/codex/parse.go.
pub mod Args
pub mod Parse
