-- ===== src/Lexer/Number/Malformed.antt =====
-- Texts that `scan_number` rejects, described apart from the scanners, and what it returns: a number or
-- one of these texts.
use Prim.Native.String.{String}
use coglet.Prelude.{
  ℕ, ◌≢◌, Bytes, All, Bool, false, true, length, [], ◌∷◌, ◌++◌, append-ne-nil, ◌≡◌, refl, ◌||◌, ◌⊎◌,
  ◌==◌,
}
use coglet.Lexer.Token.{TokenType, Token}
use coglet.Lexer.Bytes.{is_digit, is_word}
use coglet.Lexer.Cursor.{
  Lexer, deref, peek, mark, make_token, error_token, emit_to_here, fail_to_here,
}
use coglet.Lexer.Motion.{Moved, Moved-trans, Ran}
use coglet.Lexer.Lexeme.{
  IsDigits, is_digit_of, RadixPrefix, IsInteger, IsSign, IsExponent, IsFraction, IsHexSignificand,
  Optional, IsFloat, Lexeme,
}
use coglet.Lexer.Emit.{Emits, emit_to_here-Emits, fail_to_here-Emits, ptr_diff-Moved}
use coglet.Lexer.Number.{is_word_or_point}

-- The sign of an exponent, or none where none stands, and no digit behind it.
pub record IsSignOnly (sign after : Bytes) : Type 0 where
  pub sign_is : IsSign sign
  pub longest : (sign ≢ []) ⊎ ((deref after == b'+' || deref after == b'-') ≡ false)
  pub no_digit : is_digit (deref after) ≡ false

-- The rest of the word that a malformed number is consumed with.
pub record IsTail (test : ℕ → Bool) (text rest : Bytes) : Type 0 where
  pub passed : All (λ c. test c ≡ true) text
  pub ended : test (deref rest) ≡ false

pub data IsBadNumber (text rest : Bytes) : Type 0 where
  -- A decimal exponent with no digit.
  bad_exponent :
      (whole fraction sign : Bytes) (letter : ℕ)
      → IsDigits is_digit whole
      → Optional IsFraction fraction
      → (letter ≡ b'e') ⊎ (letter ≡ b'E')
      → IsSignOnly sign rest
      → text ≡ (whole ++ fraction) ++ (letter ∷ sign)
      → IsBadNumber text rest
  -- No binary or octal digit behind the prefix, or something else of a word behind the digits.
  bad_prefixed :
      (letter radix : ℕ) (digits tail : Bytes)
      → RadixPrefix letter radix
      → radix ≢ 16
      → text ≡ (b'0' ∷ letter ∷ digits) ++ tail
      → All (λ c. is_digit_of radix c ≡ true) digits
      → is_digit_of radix (deref (tail ++ rest)) ≡ false
      → IsTail is_word tail rest
      → (digits ≡ []) ⊎ (is_word (deref (tail ++ rest)) ≡ true)
      → IsBadNumber text rest
  -- No hexadecimal digit behind the prefix, with a point or without.
  hex_without_digits :
      (letter : ℕ) (point tail : Bytes)
      → RadixPrefix letter 16
      → (point ≡ b'.' ∷ []) ⊎ ((point ≡ []) × ((deref (tail ++ rest) == b'.') ≡ false))
      → text ≡ (b'0' ∷ letter ∷ point) ++ tail
      → is_digit_of 16 (deref (tail ++ rest)) ≡ false
      → IsTail is_word_or_point tail rest
      → IsBadNumber text rest
  -- Hexadecimal digits with a point and no exponent, or with something else of a word behind them.
  hex_without_exponent :
      (letter : ℕ) (significand tail : Bytes) (s : IsHexSignificand significand)
      → RadixPrefix letter 16
      → text ≡ (b'0' ∷ letter ∷ significand) ++ tail
      → is_digit_of 16 (deref (tail ++ rest)) ≡ false
      → (deref (tail ++ rest) == b'p' || deref (tail ++ rest) == b'P') ≡ false
      → (s.point ≢ []) ⊎ (is_word (deref (tail ++ rest)) ≡ true)
      → IsTail is_word tail rest
      → IsBadNumber text rest
  -- A hexadecimal exponent with no digit.
  bad_hex_exponent :
      (letter p : ℕ) (significand sign tail : Bytes)
      → IsHexSignificand significand
      → RadixPrefix letter 16
      → (p ≡ b'p') ⊎ (p ≡ b'P')
      → IsSignOnly sign (tail ++ rest)
      → text ≡ ((b'0' ∷ letter ∷ significand) ++ (p ∷ sign)) ++ tail
      → IsTail is_word tail rest
      → IsBadNumber text rest
  -- A hexadecimal exponent with something else of a word behind its digits.
  bad_hex_float :
      (letter : ℕ) (significand exponent tail : Bytes)
      → IsHexSignificand significand
      → RadixPrefix letter 16
      → IsExponent b'p' b'P' exponent
      → text ≡ ((b'0' ∷ letter ∷ significand) ++ exponent) ++ tail
      → is_digit (deref (tail ++ rest)) ≡ false
      → is_word (deref (tail ++ rest)) ≡ true
      → IsTail is_word tail rest
      → IsBadNumber text rest

pub data IsScanned (type : TokenType) (text rest : Bytes) : Type 0 where
  integer : type ≡ TokenType.tok_number_int → IsInteger text rest → IsScanned type text rest
  float : type ≡ TokenType.tok_number_float → IsFloat text rest → IsScanned type text rest
  malformed : type ≡ TokenType.tok_error → IsBadNumber text rest → IsScanned type text rest

-- From `lx` on, `r` is an integer, a float, or the error for a malformed number; the token covers the
-- text that was consumed.
pub record Scans (lx : Lexer) (r : Token × Lexer) : Type 0 where
  pub emits : Emits lx r
  pub text : Bytes
  pub moved : Moved lx text r.1
  pub length_is : r.0.length ≡ length text
  pub scanned : IsScanned r.0.type text r.1.current

pub integer-Scans :
    {lx lx' : Lexer} (text : Bytes)
    → Moved lx text lx'
    → IsInteger text lx'.current
    → Scans lx (emit_to_here lx' TokenType.tok_number_int (mark lx))
unfolding make_token
integer-Scans text m i = record {
  emits = emit_to_here-Emits text TokenType.tok_number_int m (Lexeme.integer refl i);
  text = text;
  moved = m;
  length_is = ptr_diff-Moved text m;
  scanned = integer refl i;
}

pub float-Scans :
    {lx lx' : Lexer} (text : Bytes)
    → Moved lx text lx'
    → IsFloat text lx'.current
    → Scans lx (emit_to_here lx' TokenType.tok_number_float (mark lx))
unfolding make_token
float-Scans text m i = record {
  emits = emit_to_here-Emits text TokenType.tok_number_float m (Lexeme.float refl i);
  text = text;
  moved = m;
  length_is = ptr_diff-Moved text m;
  scanned = float refl i;
}

pub fail-Scans :
    {lx lx' : Lexer} (text : Bytes) (message : String)
    → Moved lx text lx'
    → text ≢ []
    → IsBadNumber text lx'.current
    → Scans lx (fail_to_here lx' (mark lx) message)
unfolding make_token error_token
fail-Scans text message m some bad = record {
  emits = fail_to_here-Emits text message m some;
  text = text;
  moved = record {
    splits = m.splits;
    no_nul = m.no_nul;
    line_is = m.line_is;
    column_is = m.column_is;
    source_is = m.source_is;
    id_is = m.id_is;
    overrun_is = m.overrun_is;
  };
  length_is = ptr_diff-Moved text m;
  scanned = malformed refl bad;
}

-- A malformed number is consumed with the rest of the word, as one error token.
pub fail_run-Scans :
    {lx0 lx lx' : Lexer} {test : ℕ → Bool} (text : Bytes) (message : String)
    → Moved lx0 text lx
    → text ≢ []
    → Ran test lx lx'
    → ((t : Bytes)
        → lx.current ≡ t ++ lx'.current
        → IsTail test t lx'.current
        → IsBadNumber (text ++ t) lx'.current)
    → Scans lx0 (fail_to_here lx' (mark lx0) message)
unfolding peek
fail_run-Scans text message m some ran bad =
    fail-Scans (text ++ ran.text) message (Moved-trans text ran.text m ran.moved)
      (append-ne-nil text ran.text some)
      (bad ran.text ran.moved.splits (record { passed = ran.passed; ended = ran.stopped }))
