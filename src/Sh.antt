-- ===== src/Sh.antt =====
-- lab1_shell/sh.c: lines, tokens, commands and the search path of the shell.
pub mod Access
pub mod Text
pub mod Lexer
pub mod Parser
pub mod Line
pub mod Session
pub mod SearchPath
pub mod Tests
