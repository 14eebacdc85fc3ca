-- ===== src/Lexer/Text.antt =====
-- `scan_identifier`, `scan_string` and `scan_char` of src/lexer.c.
pub mod Grammar
use coglet.Prelude.{ℕ, zero, suc, length, not, ◌&&◌, ◌==◌, if◌then◌else◌}
use coglet.Lexer.Token.{TokenType, Token}
use coglet.Lexer.Keyword.{identifier_type}
use coglet.Lexer.Bytes.{is_word}
use coglet.Lexer.Cursor.{
  Lexer, Mark, ptr_diff, is_at_end, peek, peek_next, advance, skip_while, emit_to_here, fail,
}

unfoldable pub scan_identifier : Lexer → Mark → Token × Lexer
scan_identifier lx m =
    let ended = skip_while is_word lx in
    emit_to_here ended (identifier_type m.start (ptr_diff ended.current m.start)) m

-- The loop of `scan_string`, on the bytes left as fuel.
unfoldable pub skip_string : ℕ → Lexer → Lexer
skip_string zero lx = lx
skip_string (suc fuel) lx =
    let escaped = peek lx == b'\\' && not (peek_next lx == 0) in
    let rest = skip_string fuel (advance (if escaped then advance lx else lx)) in
    if not (peek lx == b'"') && not (is_at_end lx) then rest else lx

unfoldable pub scan_string : Lexer → Mark → Token × Lexer
scan_string lx m =
    let ended = skip_string (length lx.current) lx in
    if is_at_end ended
    then fail ended m 1 "unterminated string"
    else emit_to_here (advance ended) TokenType.tok_string m

-- `scan_char` from its test for the closing quote on.
unfoldable pub close_char : Lexer → Mark → Token × Lexer
close_char lx m =
    if not (peek lx == b'\'')
    then fail lx m 1 "expected closing quote for character literal"
    else emit_to_here (advance lx) TokenType.tok_char m

unfoldable pub scan_char : Lexer → Mark → Token × Lexer
scan_char lx m =
    if is_at_end lx
    then fail lx m 1 "unterminated character literal"
    else if peek lx == b'\\'
    then (if is_at_end (advance lx)
        then fail (advance lx) m 1 "unterminated character literal"
        else close_char (advance (advance lx)) m)
    else close_char (advance lx) m
