-- ===== src/Cli.antt =====
-- cli/: the command line tool `mm`.
pub mod Args
pub mod Format
pub mod Topics
pub mod Main
