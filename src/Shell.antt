-- ===== src/Shell.antt =====
-- The shell, sh.c: the tokens of a command line, the path names, and the commands.
pub mod Command
pub mod Path
pub mod Token
mod Tests
