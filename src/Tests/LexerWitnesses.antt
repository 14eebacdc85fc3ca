-- ===== src/Tests/LexerWitnesses.antt =====
-- The theorems on the lexer at concrete texts.
use coglet.Prelude.{
  ◌+◌, ◌<◌, Bytes, length, [], ◌∷◌, none, some, ◌≡◌, refl, ◌⊎◌, true, false, arith,
}
use Prim.Native.String.{String}
use coglet.Lexer.Token.{TokenType, is_eof, is_error}
use coglet.Lexer.Token.Names.{token_type_name-injective}
use coglet.Lexer.Keyword.{codes, find_keyword, keyword_matches, identifier_type}
use coglet.Lexer.Keyword.Table.{identifier_type-keyword, identifier_type-identifier}
use coglet.Lexer.Bytes.{
  is_digit, is_alpha, is_word, integer_digit_value, is_integer_digit_for_radix,
}
use coglet.Lexer.Cursor.{
  Lexer, lexer_init_with_source_id, mark, peek, advance, is_at_end, peek_next, match, make_token,
  error_token, skip_run, count_run,
}
use coglet.Lexer.Lexeme.{operators}
use coglet.Lexer.Trivia.{
  skip_whitespace_and_comments, is_space, in_line_comment, skip_block, block_comment, turn,
  skip_loop,
}
use coglet.Lexer.Trivia.Grammar.{SkipOutcome, skip-SkipOutcome}
use coglet.Lexer.Number.{
  scan_number, is_word_or_point, skip_sign, scan_hex_exponent, scan_hex_tail, scan_hex_point,
  scan_hex_number, scan_prefixed_integer, scan_exponent, scan_decimal,
}
use coglet.Lexer.Number.Grammar.{scan_number-Scans}
use coglet.Lexer.Number.Malformed.{Scans}
use coglet.Lexer.Operator.{
  scan_operator, scan_dot, scan_plus, scan_minus, scan_star, scan_slash, scan_percent, scan_colon,
  scan_equal, scan_bang, scan_less, scan_greater, scan_ampersand, scan_bar, scan_caret,
}
use coglet.Lexer.Operator.Munch.{longest, chosen}
use coglet.Lexer.Operator.Switch.{scan_operator-longest}
use coglet.Lexer.Next.{lexer_next, scan_token, next_at}
use coglet.Lexer.Next.Tokens.{Yields, lexer_next-Yields}
use coglet.Lexer.Next.Position.{
  Located, Placed, lexer_init-Located, lexer_next-Located, lexer_next-Placed,
}
use coglet.Lexer.Next.Progress.{lexer_next-shortens, lexer_next-at_end, lexer_next-error_msg}
use coglet.Lexer.Dump.{Message, Dump, dump_tokens}
use coglet.Lexer.Dump.Total.{Tiles, dump_tokens_total}
use coglet.Lexer.Text.{scan_identifier, skip_string, scan_string, close_char, scan_char}

abbrev source : Bytes
source = codes "x := 0x1.8p+1 // c\n<<= 'a'"

abbrev fresh : Bytes → Lexer
fresh text = record {
  source_start = text;
  current = text;
  overrun = false;
  line = 1;
  column = 1;
  line_start = text;
  filename = [];
  source_id = 7;
  error_msg = none;
}

lexer_next-Yields_example : Yields (fresh source) (lexer_next (fresh source))
lexer_next-Yields_example = lexer_next-Yields (fresh source)

skip-SkipOutcome_example : SkipOutcome (fresh source) (skip_whitespace_and_comments (fresh source))
skip-SkipOutcome_example = skip-SkipOutcome (fresh source)

lexer_next-Placed_example : Placed source 7 (lexer_next (fresh source)).0
unfolding lexer_init_with_source_id
lexer_next-Placed_example =
    lexer_next-Placed (fresh source) (omega arith) (lexer_init-Located 7 [] source)

lexer_next-Located_example : Located source 7 (lexer_next (fresh source)).1
unfolding lexer_init_with_source_id
lexer_next-Located_example = lexer_next-Located (fresh source) (lexer_init-Located 7 [] source)

-- A name, the end and an error.
first_tokens :
    (is_eof (lexer_next (fresh source)).0.type ≡ false)
    × (is_eof (lexer_next (fresh [])).0.type ≡ true)
    × (is_error (lexer_next (fresh (codes "'ab'"))).0.type ≡ true)
unfolding is_eof is_error lexer_next next_at scan_token scan_identifier skip_string scan_string
    close_char scan_char is_word_or_point skip_sign scan_hex_exponent scan_hex_tail scan_hex_point
    scan_hex_number scan_prefixed_integer scan_exponent scan_decimal scan_number scan_dot scan_plus
    scan_minus scan_star scan_slash scan_percent scan_colon scan_equal scan_bang scan_less
    scan_greater scan_ampersand scan_bar scan_caret scan_operator is_space in_line_comment
    skip_block block_comment turn skip_loop skip_whitespace_and_comments is_at_end peek peek_next
    advance match make_token error_token skip_run count_run is_digit is_alpha is_word
    integer_digit_value is_integer_digit_for_radix identifier_type find_keyword keyword_matches
first_tokens = (refl, refl, refl)

lexer_next-shortens_example : length (lexer_next (fresh source)).1.current < length source
lexer_next-shortens_example = lexer_next-shortens (fresh source) first_tokens.0

lexer_next-at_end_example : peek (lexer_next (fresh [])).1 ≡ 0
lexer_next-at_end_example = lexer_next-at_end (fresh []) first_tokens.1

lexer_next-error_msg_example :
    (message : String) × ((lexer_next (fresh (codes "'ab'"))).1.error_msg ≡ some message)
    × (length (lexer_next (fresh (codes "'ab'"))).1.current < length (codes "'ab'"))
lexer_next-error_msg_example = lexer_next-error_msg (fresh (codes "'ab'")) first_tokens.2

dump_tokens_total_example :
    (d : Dump) × (dump_tokens (length source + 1) [] source ≡ some d)
    × ((d.exit_code ≡ 0) × (d.message ≡ none) × Tiles source d.lines
        ⊎ ((d.exit_code ≡ 1) × ((m : Message) × (d.message ≡ some m))))
dump_tokens_total_example = dump_tokens_total [] source

scan_operator-longest_example :
    scan_operator b'<' (fresh (codes "<=1")) (mark (fresh (codes "<<=1")))
    ≡ chosen
        (fresh (codes "<=1"))
        (mark (fresh (codes "<<=1")))
        (longest operators (b'<' ∷ codes "<=1"))
scan_operator-longest_example =
    scan_operator-longest b'<' (fresh (codes "<=1")) (mark (fresh (codes "<<=1")))

scan_number-Scans_example :
    Scans
      (fresh (codes "0x1f.8p-5;"))
      (scan_number (advance (fresh (codes "0x1f.8p-5;"))) (mark (fresh (codes "0x1f.8p-5;"))))
unfolding is_digit peek
scan_number-Scans_example = scan_number-Scans (fresh (codes "0x1f.8p-5;")) refl

identifier_type-keyword_example : identifier_type (codes "if(") 2 ≡ TokenType.tok_if
identifier_type-keyword_example =
    identifier_type-keyword ("if", TokenType.tok_if) (codes "(") (ground arith)

identifier_type-identifier_example : identifier_type (codes "iff(") 3 ≡ TokenType.tok_ident
identifier_type-identifier_example =
    identifier_type-identifier (codes "iff") (codes "(") (ground arith)

token_type_name-injective_example : TokenType.tok_dot ≡ TokenType.tok_dot
token_type_name-injective_example =
    token_type_name-injective TokenType.tok_dot TokenType.tok_dot refl
