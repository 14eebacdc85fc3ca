-- ===== src/Parser.antt =====
-- src/parser.c: the joining of adjacent string literals.
pub mod Strings
