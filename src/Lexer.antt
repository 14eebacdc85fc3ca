-- ===== src/Lexer.antt =====
-- src/lexer.c and src/include/lexer.h: from source text to tokens.
pub mod Token
pub mod Keyword
pub mod Cursor
pub mod Bytes
pub mod Motion
pub mod Lexeme
pub mod Emit
pub mod Trivia
pub mod Text
pub mod Number
pub mod Operator
pub mod Next
pub mod Dump
