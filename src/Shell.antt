-- ===== src/Shell.antt =====
-- shell-code/my_shell.c: lines, and commands joined by && and &&&.
pub mod Tokens
pub mod Plan
mod Tests
