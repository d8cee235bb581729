-- ===== src/Cli.antt =====
-- The command line, src/cli.
pub mod CommandParser
