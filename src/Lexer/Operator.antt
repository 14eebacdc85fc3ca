-- ===== src/Lexer/Operator.antt =====
-- The `switch` of `lexer_next` in src/lexer.c: operators and punctuation. Each function is the code
-- behind one `case`, whose byte is consumed already.
pub mod Grammar
pub mod Munch
pub mod Switch
use coglet.Prelude.{ℕ, ◌&&◌, ◌==◌, if◌then◌else◌}
use coglet.Lexer.Token.{TokenType, Token}
use coglet.Lexer.Cursor.{Lexer, Mark, peek, peek_next, advance, match, emit, fail}

-- `if (match(lx, expected)) hit else miss`
abbrev pub on_match : Lexer → ℕ → (Lexer → Token × Lexer) → (Lexer → Token × Lexer) → Token × Lexer
on_match lx expected hit miss =
    let matched = match lx expected in if matched.0 then hit matched.1 else miss matched.1

unfoldable pub scan_dot : Lexer → Mark → Token × Lexer
scan_dot lx m =
    if peek lx == b'.' && peek_next lx == b'.'
    then emit (advance (advance lx)) TokenType.tok_ellipsis m 3
    else emit lx TokenType.tok_dot m 1

unfoldable pub scan_plus : Lexer → Mark → Token × Lexer
scan_plus lx m =
    on_match lx b'+' (λ l. emit l TokenType.tok_plus_plus m 2)
      (λ l1.
        on_match l1 b'=' (λ l. emit l TokenType.tok_plus_equal m 2)
          (λ l. emit l TokenType.tok_plus m 1))

unfoldable pub scan_minus : Lexer → Mark → Token × Lexer
scan_minus lx m =
    on_match lx b'-' (λ l. emit l TokenType.tok_minus_minus m 2)
      (λ l1.
        on_match l1 b'=' (λ l. emit l TokenType.tok_minus_equal m 2)
          (λ l2.
            on_match l2 b'>' (λ l. emit l TokenType.tok_arrow m 2)
              (λ l. emit l TokenType.tok_minus m 1)))

unfoldable pub scan_star : Lexer → Mark → Token × Lexer
scan_star lx m =
    on_match lx b'=' (λ l. emit l TokenType.tok_star_equal m 2) (λ l. emit l TokenType.tok_star m 1)

unfoldable pub scan_slash : Lexer → Mark → Token × Lexer
scan_slash lx m =
    on_match lx b'=' (λ l. emit l TokenType.tok_slash_equal m 2)
      (λ l. emit l TokenType.tok_slash m 1)

unfoldable pub scan_percent : Lexer → Mark → Token × Lexer
scan_percent lx m =
    on_match lx b'=' (λ l. emit l TokenType.tok_percent_equal m 2)
      (λ l. emit l TokenType.tok_percent m 1)

unfoldable pub scan_colon : Lexer → Mark → Token × Lexer
scan_colon lx m =
    on_match lx b':' (λ l. emit l TokenType.tok_colon_colon m 2)
      (λ l1.
        on_match l1 b'=' (λ l. emit l TokenType.tok_colon_equal m 2)
          (λ l. emit l TokenType.tok_colon m 1))

unfoldable pub scan_equal : Lexer → Mark → Token × Lexer
scan_equal lx m =
    on_match lx b'=' (λ l. emit l TokenType.tok_equal_equal m 2)
      (λ l. emit l TokenType.tok_equal m 1)

unfoldable pub scan_bang : Lexer → Mark → Token × Lexer
scan_bang lx m =
    on_match lx b'=' (λ l. emit l TokenType.tok_bang_equal m 2) (λ l. emit l TokenType.tok_bang m 1)

unfoldable pub scan_less : Lexer → Mark → Token × Lexer
scan_less lx m =
    on_match lx b'<'
      (λ l.
        on_match l b'=' (λ k. emit k TokenType.tok_shift_left_equal m 3)
          (λ k. emit k TokenType.tok_shift_left m 2))
      (λ l.
        on_match l b'=' (λ k. emit k TokenType.tok_less_equal m 2)
          (λ k. emit k TokenType.tok_less m 1))

unfoldable pub scan_greater : Lexer → Mark → Token × Lexer
scan_greater lx m =
    on_match lx b'>'
      (λ l.
        on_match l b'=' (λ k. emit k TokenType.tok_shift_right_equal m 3)
          (λ k. emit k TokenType.tok_shift_right m 2))
      (λ l.
        on_match l b'=' (λ k. emit k TokenType.tok_greater_equal m 2)
          (λ k. emit k TokenType.tok_greater m 1))

unfoldable pub scan_ampersand : Lexer → Mark → Token × Lexer
scan_ampersand lx m =
    on_match lx b'&' (λ l. emit l TokenType.tok_and_and m 2)
      (λ l1.
        on_match l1 b'=' (λ l. emit l TokenType.tok_and_equal m 2)
          (λ l. emit l TokenType.tok_and m 1))

unfoldable pub scan_bar : Lexer → Mark → Token × Lexer
scan_bar lx m =
    on_match lx b'|' (λ l. emit l TokenType.tok_or_or m 2)
      (λ l1.
        on_match l1 b'=' (λ l. emit l TokenType.tok_or_equal m 2)
          (λ l. emit l TokenType.tok_or m 1))

unfoldable pub scan_caret : Lexer → Mark → Token × Lexer
scan_caret lx m =
    on_match lx b'=' (λ l. emit l TokenType.tok_xor_equal m 2) (λ l. emit l TokenType.tok_xor m 1)

-- The `switch`, on the byte that was consumed.
unfoldable pub scan_operator : ℕ → Lexer → Mark → Token × Lexer
scan_operator c lx m =
    if c == b'('
    then emit lx TokenType.tok_lparen m 1
    else if c == b')'
    then emit lx TokenType.tok_rparen m 1
    else if c == b'{'
    then emit lx TokenType.tok_lbrace m 1
    else if c == b'}'
    then emit lx TokenType.tok_rbrace m 1
    else if c == b'['
    then emit lx TokenType.tok_lbracket m 1
    else if c == b']'
    then emit lx TokenType.tok_rbracket m 1
    else if c == b'#'
    then emit lx TokenType.tok_hash m 1
    else if c == b';'
    then emit lx TokenType.tok_semicolon m 1
    else if c == b','
    then emit lx TokenType.tok_comma m 1
    else if c == b'.'
    then scan_dot lx m
    else if c == b'+'
    then scan_plus lx m
    else if c == b'-'
    then scan_minus lx m
    else if c == b'*'
    then scan_star lx m
    else if c == b'/'
    then scan_slash lx m
    else if c == b'%'
    then scan_percent lx m
    else if c == b':'
    then scan_colon lx m
    else if c == b'='
    then scan_equal lx m
    else if c == b'!'
    then scan_bang lx m
    else if c == b'<'
    then scan_less lx m
    else if c == b'>'
    then scan_greater lx m
    else if c == b'&'
    then scan_ampersand lx m
    else if c == b'|'
    then scan_bar lx m
    else if c == b'^'
    then scan_caret lx m
    else if c == b'~'
    then emit lx TokenType.tok_tilde m 1
    else fail lx m 1 "unexpected character"
