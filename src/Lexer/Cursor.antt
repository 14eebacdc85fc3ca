-- ===== src/Lexer/Cursor.antt =====
-- Lexer of src/include/lexer.h, and the functions of src/lexer.c that read and move its cursor.
-- A `const char *` into the source is the list of the bytes from there to the terminating NUL, so
-- `*p` is `deref p`, `p[1]` is `deref (tail p)`, and `q - p` is `ptr_diff q p`.
-- `int` lines, columns and lengths are native numbers: Lexer.Span bounds them by the source.
use Prim.Native.String.{String}
use coglet.Prelude.{
  ℕ, zero, suc, ◌+◌, ◌-◌, ◌%◌, ◌^◌, Bytes, length, Bool, true, false, not, [], ◌∷◌, Option, none,
  some, ltb, ◌==◌, if◌then◌else◌,
}
use coglet.Source.Span.{SourceFileId, source_span_make}
use coglet.Lexer.Token.{TokenType, Token}

-- `overrun` has no counterpart in the source: it records a step past the terminating NUL, after
-- which the C code would read outside the buffer.
pub record Lexer : Type 0 where
  pub filename : Bytes
  pub source_id : SourceFileId
  pub source_start : Bytes
  pub current : Bytes
  pub line : ℕ
  pub column : ℕ
  pub line_start : Bytes
  pub error_msg : Option String
  pub overrun : Bool

abbrev pub deref : Bytes → ℕ
deref [] = 0
deref (c ∷ cs) = c

abbrev pub tail : Bytes → Bytes
tail [] = []
tail (c ∷ cs) = cs

-- `q - p` for pointers into one text, `p` not behind `q`.
abbrev pub ptr_diff : Bytes → Bytes → ℕ
ptr_diff q p = length p - length q

unfoldable pub lexer_init_with_source_id : SourceFileId → Bytes → Bytes → Lexer
lexer_init_with_source_id source_id filename source = record {
  filename = filename;
  source_id = source_id;
  source_start = source;
  current = source;
  line = 1;
  column = 1;
  line_start = source;
  error_msg = none;
  overrun = false;
}

unfoldable pub lexer_init : Bytes → Bytes → Lexer
lexer_init filename source = lexer_init_with_source_id 0 filename source

unfoldable pub is_at_end : Lexer → Bool
is_at_end lx = deref lx.current == 0

unfoldable pub peek : Lexer → ℕ
peek lx = deref lx.current

unfoldable pub peek_next : Lexer → ℕ
peek_next lx = if is_at_end lx then 0 else deref (tail lx.current)

-- The byte that `advance` returns is `peek lx`.
unfoldable pub advance : Lexer → Lexer
advance lx =
    let over = if is_at_end lx then true else lx.overrun in
    if peek lx == b'\n'
    then record lx { current = tail lx.current; line = lx.line + 1; column = 1; overrun = over }
    else record lx { current = tail lx.current; column = lx.column + 1; overrun = over }

unfoldable pub match : Lexer → ℕ → Bool × Lexer
match lx expected =
    if is_at_end lx
    then (false, lx)
    else if not (peek lx == expected)
    then (false, lx)
    else (true, advance lx)

-- A byte offset is a `size_t`; line and column are cast to `uint32_t`.
unfoldable pub make_token : Lexer → TokenType → Bytes → ℕ → ℕ → ℕ → Token
unfolding source_span_make
make_token lx type start length line column =
    let start_offset = ptr_diff start lx.source_start in
    let end_offset = (start_offset + (if ltb 0 length then length else 0)) % 2 ^ 64 in
    record {
      type = type;
      start = start;
      length = length;
      line = line;
      column = column;
      span =
          source_span_make lx.source_id start_offset end_offset (line % 2 ^ 32) (column % 2 ^ 32);
    }

unfoldable pub error_token : Lexer → Bytes → ℕ → ℕ → ℕ → String → Token × Lexer
error_token lx start length line column message =
    let failed = record lx { error_msg = some message } in
    (make_token failed TokenType.tok_error start length line column, failed)

-- `while (test(peek(lx))) advance(lx);`. The fuel is the bytes left: with none left, `peek` is NUL,
-- at which no test of the lexer passes.
unfoldable pub skip_run : (ℕ → Bool) → ℕ → Lexer → Lexer
skip_run test zero lx = lx
skip_run test (suc fuel) lx =
    let rest = skip_run test fuel (advance lx) in if test (peek lx) then rest else lx

abbrev pub skip_while : (ℕ → Bool) → Lexer → Lexer
skip_while test lx = skip_run test (length lx.current) lx

-- The same loop with `count++` behind each `advance`.
unfoldable pub count_run : (ℕ → Bool) → ℕ → ℕ → Lexer → ℕ × Lexer
count_run test zero count lx = (count, lx)
count_run test (suc fuel) count lx =
    let rest = count_run test fuel (count + 1) (advance lx) in
    if test (peek lx) then rest else (count, lx)

abbrev pub count_while : (ℕ → Bool) → ℕ → Lexer → ℕ × Lexer
count_while test count lx = count_run test (length lx.current) count lx

-- `start`, `start_line` and `start_column`, which `lexer_next` hands to each scanner.
pub record Mark : Type 0 where
  pub start : Bytes
  pub line : ℕ
  pub column : ℕ

abbrev pub mark : Lexer → Mark
mark lx = record { start = lx.current; line = lx.line; column = lx.column }

-- `return make_token(lx, type, start, length, start_line, start_column);`
abbrev pub emit : Lexer → TokenType → Mark → ℕ → Token × Lexer
emit lx type m length = (make_token lx type m.start length m.line m.column, lx)

-- The same with the length `(int)(lx->current - start)`.
abbrev pub emit_to_here : Lexer → TokenType → Mark → Token × Lexer
emit_to_here lx type m = emit lx type m (ptr_diff lx.current m.start)

abbrev pub fail : Lexer → Mark → ℕ → String → Token × Lexer
fail lx m length message = error_token lx m.start length m.line m.column message

abbrev pub fail_to_here : Lexer → Mark → String → Token × Lexer
fail_to_here lx m message = fail lx m (ptr_diff lx.current m.start) message
