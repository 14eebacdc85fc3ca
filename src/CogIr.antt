-- ===== src/CogIr.antt =====
-- The compiler's intermediate representation, src/include/ir/cog_ir.h, and what the verifier promises.
pub mod Module
pub mod Build
pub mod Verify
