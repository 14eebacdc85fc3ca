-- ===== src/Source.antt =====
-- src/source.c and src/include/source.h: the registry of source files and the spans that point into them.
pub mod Span
pub mod Manager
