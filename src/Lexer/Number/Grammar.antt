-- ===== src/Lexer/Number/Grammar.antt =====
-- `scan_number` on every number.
use coglet.Prelude.{
  ℕ, true, false, refl, ◌&&◌, ◌||◌, ◌≡◌, ◌⊎◌, inl, inr, ◌==◌, ==_iff, Bool-cases, arith,
}
use coglet.Lexer.Bytes.{is_digit}
use coglet.Lexer.Cursor.{Lexer, mark, peek, advance}
use coglet.Lexer.Lexeme.{hexadecimal, binary, octal, at_prefix}
use coglet.Lexer.Motion.{current-advance}
use coglet.Lexer.Number.{scan_number}
use coglet.Lexer.Number.Malformed.{Scans}
use coglet.Lexer.Number.Decimal.{scan_decimal-Scans}
use coglet.Lexer.Number.Prefixed.{scan_prefixed_integer-Scans}
use coglet.Lexer.Number.Hex.{scan_hex_number-Scans}

either : (c lower upper : ℕ) → (c == lower || c == upper) ≡ true → (c ≡ lower) ⊎ (c ≡ upper)
either c lower upper h = ground arith

-- No letter of a radix, so no prefix.
no_letter-at_prefix :
    (lx : Lexer)
    → is_digit (peek lx) ≡ true
    → let c = peek (advance lx) in
      (peek lx == b'0'
          && (c == b'x' || c == b'X' || (c == b'b' || c == b'B' || (c == b'o' || c == b'O'))))
        ≡ false
      → at_prefix lx.current ≡ false
unfolding peek
no_letter-at_prefix lx h e = rw (← current-advance lx) e

-- From a digit on, `scan_number` returns an integer or a float that what follows cannot continue:
-- behind a decimal number stands no digit, and no e or E if it has no exponent; behind a decimal
-- integer no point with a digit behind that; behind a number with a radix prefix no letter, digit or
-- `_`, and behind a hexadecimal integer no point; and a lone 0 is returned only where no letter of a
-- radix follows. Or it returns the error for a malformed number: a decimal exponent with no digit; a
-- prefix with no digit of its radix; something else of a word behind the digits or the exponent of a
-- number with a prefix; hexadecimal digits with a point and no exponent, or with an exponent that
-- has no digit. The token covers what was consumed.
pub scan_number-Scans :
    (lx : Lexer) → is_digit (peek lx) ≡ true → Scans lx (scan_number (advance lx) (mark lx))
unfolding scan_number peek
scan_number-Scans lx h =
    let c = peek (advance lx) in
    elim (Bool-cases (peek lx == b'0')) [
      | inr decimal ↦ rw decimal (scan_decimal-Scans lx (no_letter-at_prefix lx h (ground arith)) h)
      | inl zero_first ↦
          let z = (==_iff (peek lx) b'0').0 zero_first in
          elim (Bool-cases (c == b'x' || c == b'X')) [
            | inl x ↦
                rw (zero_first, x)
                  (scan_hex_number-Scans lx z (hexadecimal c (either c b'x' b'X' x)))
            | inr x ↦ elim (Bool-cases (c == b'b' || c == b'B')) [
              | inl b ↦
                  rw (zero_first, x, b)
                    (scan_prefixed_integer-Scans lx 2 _ _ z (binary c (either c b'b' b'B' b))
                      (omega arith))
              | inr b ↦ elim (Bool-cases (c == b'o' || c == b'O')) [
                | inl o ↦
                    rw (zero_first, x, b, o)
                      (scan_prefixed_integer-Scans lx 8 _ _ z (octal c (either c b'o' b'O' o))
                        (omega arith))
                | inr o ↦
                    rw (zero_first, x, b, o)
                      (scan_decimal-Scans lx
                        (no_letter-at_prefix lx h (rw (zero_first, x, b, o) refl)) h)
              ]
            ]
          ]
    ]
