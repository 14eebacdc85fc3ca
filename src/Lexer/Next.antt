-- ===== src/Lexer/Next.antt =====
-- `lexer_next` of src/lexer.c.
pub mod Position
pub mod Progress
pub mod Quoted
pub mod Tokens
use coglet.Prelude.{ℕ, none, some, ◌==◌, if◌then◌else◌}
use coglet.Lexer.Token.{TokenType, Token}
use coglet.Lexer.Bytes.{is_alpha, is_digit}
use coglet.Lexer.Cursor.{Lexer, Mark, mark, is_at_end, peek, advance, emit}
use coglet.Lexer.Trivia.{skip_whitespace_and_comments}
use coglet.Lexer.Text.{scan_identifier, scan_string, scan_char}
use coglet.Lexer.Number.{scan_number}
use coglet.Lexer.Operator.{scan_operator}

-- `lexer_next` behind `advance`: `c` is the first byte of the token.
unfoldable pub scan_token : ℕ → Lexer → Mark → Token × Lexer
scan_token c lx m =
    if is_alpha c
    then scan_identifier lx m
    else if is_digit c
    then scan_number lx m
    else if c == b'"'
    then scan_string lx m
    else if c == b'\''
    then scan_char lx m
    else scan_operator c lx m

-- `lexer_next` behind the skipped whitespace and comments.
unfoldable pub next_at : Lexer → Token × Lexer
next_at lx =
    if is_at_end lx
    then emit lx TokenType.tok_eof (mark lx) 0
    else scan_token (peek lx) (advance lx) (mark lx)

unfoldable pub lexer_next : Lexer → Token × Lexer
lexer_next lx =
    let skipped = skip_whitespace_and_comments lx in
    elim (skipped.0) [ some comment_error ↦ (comment_error, skipped.1) | none ↦ next_at skipped.1 ]
