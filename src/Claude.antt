-- ===== src/Claude.antt =====
-- The Claude backend: its line parser in engine/cli/claude/parse.go, and its arguments in
-- engine/cli/claude/claude.go.
pub mod Fields
pub mod Content
pub mod Lines
pub mod Parse
pub mod Args
