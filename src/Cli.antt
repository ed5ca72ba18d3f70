-- ===== src/Cli.antt =====
-- cmd/cli/main.go: the command line for the administration.
pub mod Flags
pub mod Commands
pub mod Spelled
pub mod Safety
pub mod Linked
