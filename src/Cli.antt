-- ===== src/Cli.antt =====
-- internal/cli: the commands that change the rules, and the cutover from an old installation.
pub mod Entries
pub mod Rules
pub mod Cutover
