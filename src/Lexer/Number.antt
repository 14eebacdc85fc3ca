-- ===== src/Lexer/Number.antt =====
-- `scan_hex_number`, `scan_prefixed_integer` and `scan_number` of src/lexer.c.
pub mod Decimal
pub mod Grammar
pub mod Hex
pub mod Malformed
pub mod Prefixed
use Prim.Native.String.{String}
use coglet.Prelude.{ℕ, Bool, true, false, not, ◌&&◌, ◌||◌, ◌==◌, if◌then◌else◌}
use coglet.Lexer.Token.{TokenType, Token}
use coglet.Lexer.Bytes.{is_digit, is_integer_digit_for_radix, is_word}
use coglet.Lexer.Cursor.{
  Lexer, Mark, deref, peek, peek_next, advance, skip_while, count_while, emit_to_here, fail_to_here,
}

abbrev pub is_hex : ℕ → Bool
is_hex c = is_integer_digit_for_radix c 16

-- The test of the loop over the tail of a hexadecimal number with no digits.
unfoldable pub is_word_or_point : ℕ → Bool
is_word_or_point c = is_word c || c == b'.'

-- `if (c == '+' || c == '-') advance(lx);`
unfoldable pub skip_sign : Lexer → Lexer
skip_sign lx = if peek lx == b'+' || peek lx == b'-' then advance lx else lx

-- `scan_hex_number` behind the test for p/P, at that letter.
unfoldable pub scan_hex_exponent : Lexer → Mark → Token × Lexer
scan_hex_exponent lx m =
    let signed = skip_sign (advance lx) in
    let digits = skip_while is_digit signed in
    if not (is_digit (peek signed))
    then fail_to_here (skip_while is_word signed) m
        "expected digits after hexadecimal floating-point exponent"
    else if is_word (peek digits)
    then fail_to_here (skip_while is_word digits) m
        "invalid digit in hexadecimal floating-point literal"
    else emit_to_here digits TokenType.tok_number_float m

-- `scan_hex_number` behind the significand.
unfoldable pub scan_hex_tail : ℕ → Bool → Lexer → Mark → Token × Lexer
scan_hex_tail significand_digits saw_point lx m =
    if significand_digits == 0
    then fail_to_here (skip_while is_word_or_point lx) m "expected hexadecimal digits after prefix"
    else if peek lx == b'p' || peek lx == b'P'
    then scan_hex_exponent lx m
    else if saw_point
    then fail_to_here (skip_while is_word lx) m
        "expected p/P exponent in hexadecimal floating-point literal"
    else if is_word (peek lx)
    then fail_to_here (skip_while is_word lx) m "invalid digit in hexadecimal integer literal"
    else emit_to_here lx TokenType.tok_number_int m

-- `scan_hex_number` at the point, with the digits before it counted.
unfoldable pub scan_hex_point : ℕ → Lexer → Mark → Token × Lexer
scan_hex_point whole_digits lx m =
    let all = count_while is_hex whole_digits (advance lx) in scan_hex_tail all.0 true all.1 m

unfoldable pub scan_hex_number : Lexer → Mark → Token × Lexer
scan_hex_number lx m =
    let whole = count_while is_hex 0 (advance lx) in
    if peek whole.1 == b'.'
    then scan_hex_point whole.0 whole.1 m
    else scan_hex_tail whole.0 false whole.1 m

unfoldable pub scan_prefixed_integer : Lexer → Mark → ℕ → String → String → Token × Lexer
scan_prefixed_integer lx m radix missing_digits_message invalid_digit_message =
    let digits = count_while (λ c. is_integer_digit_for_radix c radix) 0 (advance lx) in
    if digits.0 == 0
    then fail_to_here (skip_while is_word digits.1) m missing_digits_message
    else if is_word (peek digits.1)
    then fail_to_here (skip_while is_word digits.1) m invalid_digit_message
    else emit_to_here digits.1 TokenType.tok_number_int m

-- `scan_number` behind its test for e/E.
unfoldable pub scan_exponent : Bool → Lexer → Mark → Token × Lexer
scan_exponent is_float lx m =
    let signed = skip_sign (advance lx) in
    if peek lx == b'e' || peek lx == b'E'
    then (if not (is_digit (peek signed))
        then fail_to_here signed m "expected digits after exponent"
        else emit_to_here (skip_while is_digit signed) TokenType.tok_number_float m)
    else emit_to_here lx (if is_float then TokenType.tok_number_float else TokenType.tok_number_int)
        m

-- `scan_number` behind the radix prefixes.
unfoldable pub scan_decimal : Lexer → Mark → Token × Lexer
scan_decimal lx m =
    let whole = skip_while is_digit lx in
    if peek whole == b'.' && is_digit (peek_next whole)
    then scan_exponent true (skip_while is_digit (advance whole)) m
    else scan_exponent false whole m

unfoldable pub scan_number : Lexer → Mark → Token × Lexer
scan_number lx m =
    if deref m.start == b'0'
    then (if peek lx == b'x' || peek lx == b'X'
        then scan_hex_number lx m
        else if peek lx == b'b' || peek lx == b'B'
        then scan_prefixed_integer lx m 2 "expected binary digits after prefix"
            "invalid digit in binary integer literal"
        else if peek lx == b'o' || peek lx == b'O'
        then scan_prefixed_integer lx m 8 "expected octal digits after prefix"
            "invalid digit in octal integer literal"
        else scan_decimal lx m)
    else scan_decimal lx m
