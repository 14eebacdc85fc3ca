-- ===== src/Lib.antt =====
-- The Coglet compiler: its front end, from text to tokens, its target layouts, the verifier of its
-- intermediate representation, and the allocators of the compiler and of the runtime.
--
-- The parts and how they meet:
-- * Source (src/include/source.h, src/source.c): SourceManager registers each file under an id that never
--   changes; SourceSpan is a range of bytes of one file with the line and column of its start.
-- * Lexer (src/include/lexer.h, src/lexer.c): `lexer_next` is called until it returns TOK_EOF or TOK_ERROR.
--   Token holds a TokenType; Keyword has the table of keywords; Cursor has the state `Lexer`, the moves
--   `peek`, `advance` and `match`, and the making of tokens, whose spans come from Source; Trivia skips
--   whitespace and comments; Text, Number and Operator scan one kind of token each, and Next is
--   `lexer_next` itself. Every C function keeps its name. The cases of the `switch` in `lexer_next` are
--   `scan_dot` to `scan_caret` in Operator.
-- * Lexer.Dump (tools/dump_tokens.c): the loop that prints tokens until one is TOK_EOF or TOK_ERROR.
-- * Literal (src/include/string_decode.h, src/string_decode.c): the escapes of the payloads that the lexer
--   cuts out of string and character tokens.
-- * Arena (src/include/utils/arena.h, src/utils/arena.c): the blocks that the compiler allocates from.
-- * Target (src/target/target_config.c, src/target/target_info.c, src/target/target_layout.c): the targets,
--   and size and alignment of the language's types on them, in Target.Layout.
-- * Runtime (stdlib/runtime/coglet_runtime_mem.c): the allocators of std.mem, the heap (Heap), the arena
--   over a parent allocator (Arena) and the arena in a buffer (FixedArena).
-- * CogIr (src/include/ir/cog_ir.h, src/ir/cog_ir.c, src/ir/cog_ir_verify.c): Module has the structures and
--   look-ups; Verify has the queries of the verifier, and below it Operations, Instructions, Functions,
--   Bodies and Modules are its checks, from one operation up to `cog_ir_verify`; spans are checked
--   against Source and the target by Target. Runs says how a function runs, as far as its values go.
--   Build has the calls of src/ir/cog_ir.c that fill a function's body.
--
-- Correspondence: a `const char *` into a text is the list of the bytes from there on, without the
-- terminating NUL; what stands at the end of the list reads as NUL. `Lexer.overrun`, which C does not
-- have, records a read or move behind the NUL. A function that writes through a `Lexer *` returns the
-- new Lexer. An `int` line, column or length is a natural number, and `size_t` sums in Source and Arena
-- are kept modulo 2 ^ 64. Bytes are numbers below 256 where it matters; a negative `char` and the byte
-- it stands for fail the same tests. A block of the arena has an address, a fill and a capacity; the
-- addresses that `malloc` returns are arguments. So are those that the runtime's parent allocator
-- returns. The runtime is modelled for targets with 64-bit pointers; `& ~(alignment - 1)`, with a power
-- of two, is the value less its remainder, and the end of the program by `coglet_rt_mem_fail` is `none`.
-- Of the structures of CogIr those fields are kept that the verifier reads; a kind and its union are one
-- data type, operations that share a case of the verifier are one constructor, an `int` that is a flag
-- is a Bool, and `ok` is a Bool, without the diagnostics.
-- A `const Type *` is a number, and a graph of types a function on these numbers.
--
-- Fuel: the loops that consume text run on the number of bytes left, which is enough as each turn
-- consumes one; the loop of the dump takes one call for each byte and one more. The layout of types runs
-- on a number of nested calls; 516 are enough, since at most 256 types are open at once and each may
-- be followed by an enum, which is not counted there, and its backing type.
--
-- The grammar that the tokens are held against is in Lexer.Lexeme (lexemes, and the table of operators),
-- Lexer.Number.Malformed (what is an error in a number) and Lexer.Trivia.Comments (whitespace and
-- comments). Lexer.Emit says what a scanner may return. The table of escapes that payloads are held
-- against is in Literal.Decoding.
--
-- Not modelled: the rest of the parser, the semantic analysis, the lowering and dumping of CogIR, and of its
-- builder the interning of types and constants and the making of functions, the back ends and the driver, which are far larger and come behind what is here; the text of
-- diagnostics; the input, output and mathematics of the runtime, which
-- call the C library, and its debug allocator. Of the compiler's arena, the contents of memory are not
-- modelled, and neither are `arena_zalloc` and `arena_strdup_len`. Of the runtime's arenas, the copy of a
-- resize is not. Of the dump, reading the file and formatting are not. Of the target, `target_info_host`
-- is not, which asks the C compiler about the host.
pub mod Prelude
pub mod Source
pub mod Arena
pub mod CogIr
pub mod Lexer
pub mod Literal
pub mod Parser
pub mod Target
pub mod Runtime
pub mod Tests
