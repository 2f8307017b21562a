-- ===== src/Shell.antt =====
-- TinyCTX/modules/shell: the syntax tree of a command line, the commands found in it, and the
-- capabilities that they need.
pub mod Tree
pub mod Commands
pub mod Specs
pub mod Classify
pub mod Gate
pub mod Policy
