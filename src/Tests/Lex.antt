-- ===== src/Tests/Lex.antt =====
-- `lexer_next` on concrete texts.
use coglet.Prelude.{ℕ, zero, suc, Bytes, List, [], ◌∷◌, ◌≡◌, refl}
use coglet.Lexer.Token.{TokenType}
use coglet.Lexer.Keyword.{codes, identifier_type, find_keyword, keyword_matches}
use coglet.Lexer.Bytes.{
  is_digit, is_alpha, is_word, integer_digit_value, is_integer_digit_for_radix,
}
use coglet.Lexer.Cursor.{
  Lexer, lexer_init, lexer_init_with_source_id, is_at_end, peek, peek_next, advance, match,
  make_token, error_token, skip_run, count_run,
}
use coglet.Lexer.Trivia.{
  is_space, in_line_comment, skip_block, block_comment, turn, skip_loop,
  skip_whitespace_and_comments,
}
use coglet.Lexer.Text.{scan_identifier, skip_string, scan_string, close_char, scan_char}
use coglet.Lexer.Number.{
  is_word_or_point, skip_sign, scan_hex_exponent, scan_hex_tail, scan_hex_point, scan_hex_number,
  scan_prefixed_integer, scan_exponent, scan_decimal, scan_number,
}
use coglet.Lexer.Operator.{
  scan_dot, scan_plus, scan_minus, scan_star, scan_slash, scan_percent, scan_colon, scan_equal,
  scan_bang, scan_less, scan_greater, scan_ampersand, scan_bar, scan_caret, scan_operator,
}
use coglet.Lexer.Next.{scan_token, next_at, lexer_next}

-- The types and lengths of the first tokens.
abbrev lex : ℕ → Lexer → List (TokenType × ℕ)
lex zero lx = []
lex (suc n) lx = let r = lexer_next lx in (r.0.type, r.0.length) ∷ lex n r.1

abbrev text : Bytes
text = codes "x1 := 0x1.8p+1 // c\n<<= 'a' \"s\\\"\" 1e-5 0b12 if /*"

lexed :
    lex 10 (lexer_init [] text)
    ≡ (TokenType.tok_ident, 2)
      ∷ (TokenType.tok_colon_equal, 2)
      ∷ (TokenType.tok_number_float, 8)
      ∷ (TokenType.tok_shift_left_equal, 3)
      ∷ (TokenType.tok_char, 3)
      ∷ (TokenType.tok_string, 5)
      ∷ (TokenType.tok_number_float, 4)
      ∷ (TokenType.tok_error, 4)
      ∷ (TokenType.tok_if, 2)
      ∷ (TokenType.tok_error, 2)
      ∷ []
unfolding lexer_next next_at scan_token scan_identifier skip_string scan_string close_char scan_char
    is_word_or_point skip_sign scan_hex_exponent scan_hex_tail scan_hex_point scan_hex_number
    scan_prefixed_integer scan_exponent scan_decimal scan_number scan_dot scan_plus scan_minus
    scan_star scan_slash scan_percent scan_colon scan_equal scan_bang scan_less scan_greater
    scan_ampersand scan_bar scan_caret scan_operator is_space in_line_comment skip_block
    block_comment turn skip_loop skip_whitespace_and_comments lexer_init lexer_init_with_source_id
    is_at_end peek peek_next advance match make_token error_token skip_run count_run is_digit
    is_alpha is_word integer_digit_value is_integer_digit_for_radix identifier_type find_keyword
    keyword_matches
lexed = refl
