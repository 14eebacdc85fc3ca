-- ===== src/Tests.antt =====
-- The functions at concrete inputs, and the theorems at inputs that meet their hypotheses.
mod Lex
mod LexerWitnesses
mod DataWitnesses
mod TargetWitnesses
mod RuntimeWitnesses
mod CogIrWitnesses
