-- ===== src/Lexer/Trivia.antt =====
-- `skip_whitespace_and_comments` of src/lexer.c.
pub mod Comments
pub mod Grammar
use coglet.Prelude.{
  ℕ, zero, suc, length, Bool, not, ◌&&◌, ◌||◌, Option, none, some, ◌==◌, if◌then◌else◌,
}
use coglet.Lexer.Token.{Token}
use coglet.Lexer.Cursor.{Lexer, is_at_end, peek, peek_next, advance, error_token, skip_while}

unfoldable pub is_space : ℕ → Bool
is_space c = c == b' ' || (c == b'\t' || (c == b'\r' || c == b'\n'))

-- `while (peek(lx) != '\n' && !is_at_end(lx)) advance(lx);`
unfoldable pub in_line_comment : ℕ → Bool
in_line_comment c = not (c == b'\n') && not (c == 0)

-- `while (!is_at_end(lx) && !(peek(lx) == '*' && peek_next(lx) == '/')) advance(lx);`, on the bytes
-- left as fuel.
unfoldable pub skip_block : ℕ → Lexer → Lexer
skip_block zero lx = lx
skip_block (suc fuel) lx =
    let rest = skip_block fuel (advance lx) in
    if not (is_at_end lx) && not (peek lx == b'*' && peek_next lx == b'/') then rest else lx

-- The outcome of one turn of the `for (;;)` loop: `continue`, `return 1`, or `return 0` with the
-- error token.
pub data Turn : Type 0 where
  again : Lexer → Turn
  done : Lexer → Turn
  failed : Token × Lexer → Turn

unfoldable pub block_comment : Lexer → Turn
block_comment lx =
    let opened = advance (advance lx) in
    let ended = skip_block (length opened.current) opened in
    if is_at_end ended
    then failed (error_token ended lx.current 2 lx.line lx.column "unterminated block comment")
    else again (advance (advance ended))

unfoldable pub turn : Lexer → Turn
turn lx =
    if is_space (peek lx)
    then again (advance lx)
    else if peek lx == b'/' && peek_next lx == b'/'
    then again (skip_while in_line_comment lx)
    else if peek lx == b'/' && peek_next lx == b'*'
    then block_comment lx
    else done lx

-- The result is the error token, if there is one, and the lexer. The fuel is the bytes left; with
-- none left the loop returns at once.
unfoldable pub skip_loop : ℕ → Lexer → Option Token × Lexer
skip_loop zero lx = (none, lx)
skip_loop (suc fuel) lx = elim (turn lx) [
  | again lx' ↦ skip_loop fuel lx'
  | done lx' ↦ (none, lx')
  | failed r ↦ (some r.0, r.1)
]

unfoldable pub skip_whitespace_and_comments : Lexer → Option Token × Lexer
skip_whitespace_and_comments lx = skip_loop (length lx.current) lx
