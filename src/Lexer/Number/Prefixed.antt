-- ===== src/Lexer/Number/Prefixed.antt =====
-- `scan_prefixed_integer` returns the digits of its radix, up to the first byte that is in no word.
use Prim.Native.String.{String}
use coglet.Prelude.{
  ℕ, ◌≢◌, Bytes, false, [], ◌∷◌, ◌++◌, ◌≡◌, refl, ap, inl, inr, ◌==◌, Bool-cases, length, arith,
}
use coglet.Lexer.Bytes.{
  is_digit, is_alpha, is_word, integer_digit_value, is_integer_digit_for_radix,
}
use coglet.Lexer.Cursor.{Lexer, mark, peek, advance, skip_while, count_while, fail_to_here}
use coglet.Lexer.Motion.{
  Moved, Moved-trans, advance-Moved, Ran, skip_run-Ran, Counted, count_run-Counted,
}
use coglet.Lexer.Lexeme.{is_digit_of, RadixPrefix, hexadecimal, binary, octal, prefixed}
use coglet.Lexer.Number.{scan_prefixed_integer}
use coglet.Lexer.Number.Malformed.{
  IsTail, IsBadNumber, bad_prefixed, Scans, integer-Scans, fail_run-Scans,
}

pub is_word_nul : is_word 0 ≡ false
unfolding is_word is_alpha is_digit
is_word_nul = refl

pub skip_word-Ran : (lx : Lexer) → Ran is_word lx (skip_while is_word lx)
skip_word-Ran lx = skip_run-Ran is_word is_word_nul (length lx.current) lx (omega arith)

pub is_digit_of_nul : (radix : ℕ) → is_digit_of radix 0 ≡ false
unfolding is_integer_digit_for_radix integer_digit_value
is_digit_of_nul radix = refl

pub count_digits-Counted :
    (radix count : ℕ) (lx : Lexer)
    → Counted
        (is_digit_of radix)
        (is_digit_of_nul radix)
        count
        lx
        (count_while (is_digit_of radix) count lx)
count_digits-Counted radix count lx =
    count_run-Counted (is_digit_of radix) (is_digit_of_nul radix) (length lx.current) count lx
      (omega arith)

pub RadixPrefix-ne-zero : {c radix : ℕ} → RadixPrefix c radix → c ≢ 0
RadixPrefix-ne-zero (hexadecimal c h) = ground arith
RadixPrefix-ne-zero (binary c h) = ground arith
RadixPrefix-ne-zero (octal c h) = ground arith

pub length-zero : (text : Bytes) → length text ≡ 0 → text ≡ []
length-zero [] h = refl
length-zero (c ∷ cs) h = absurd (omega arith)

-- The two bytes in front of the digits: a zero and the letter.
pub prefix-Moved :
    {radix : ℕ} (lx : Lexer)
    → peek lx ≡ b'0'
    → RadixPrefix (peek (advance lx)) radix
    → Moved lx (peek lx ∷ peek (advance lx) ∷ []) (advance (advance lx))
prefix-Moved lx zero_first p =
    Moved-trans (peek lx ∷ []) (peek (advance lx) ∷ []) (advance-Moved lx (omega arith))
      (advance-Moved (advance lx) (RadixPrefix-ne-zero p))

-- A malformed number is consumed to the end of the word, as one error token.
pub fail_word-Scans :
    {lx0 lx : Lexer} (text : Bytes) (message : String)
    → Moved lx0 text lx
    → text ≢ []
    → ((t rest : Bytes)
        → lx.current ≡ t ++ rest
        → IsTail is_word t rest
        → IsBadNumber (text ++ t) rest)
    → Scans lx0 (fail_to_here (skip_while is_word lx) (mark lx0) message)
fail_word-Scans {lx0} {lx} text message m some bad =
    fail_run-Scans text message m some (skip_word-Ran lx) (λ t. bad t _)

-- `scan_prefixed_integer` returns the digits of its radix, up to the first byte that is in no word, or
-- the error for a prefix that no such digits follow.
pub scan_prefixed_integer-Scans :
    (lx : Lexer) (radix : ℕ) (missing invalid : String)
    → peek lx ≡ b'0'
    → RadixPrefix (peek (advance lx)) radix
    → radix ≢ 16
    → Scans lx (scan_prefixed_integer (advance lx) (mark lx) radix missing invalid)
unfolding scan_prefixed_integer peek
scan_prefixed_integer-Scans lx radix missing invalid zero_first p not_hex =
    let letter = peek (advance lx) in
    let digits = count_while (is_digit_of radix) 0 (advance (advance lx)) in
    let c = count_digits-Counted radix 0 (advance (advance lx)) in
    let moved : Moved lx (b'0' ∷ letter ∷ c.ran.text) digits.1 =
      rw (← zero_first) (Moved-trans _ c.ran.text (prefix-Moved lx zero_first p) c.ran.moved) in
    elim (Bool-cases (digits.0 == 0)) [
      | inl none ↦ rw none (
          fail_word-Scans _ missing moved (λ e. cc)
            (λ t rest e tail.
              bad_prefixed letter radix c.ran.text t p not_hex refl c.ran.passed
                (rw (← e) c.ran.stopped) tail
                (inl (length-zero c.ran.text (ground (arith, c.counted))))))
      | inr some ↦ elim (Bool-cases (is_word (peek digits.1))) [
        | inl bad ↦
            rw (some, bad)
              (fail_word-Scans _ invalid moved (λ e. cc)
                (λ t rest e tail.
                  bad_prefixed letter radix c.ran.text t p not_hex refl c.ran.passed
                    (rw (← e) c.ran.stopped) tail (inr (rw (← e) bad))))
        | inr stop ↦
            rw (some, stop)
              (integer-Scans _ moved (
                prefixed letter radix c.ran.text p refl
                  (record {
                    digits = c.ran.passed;
                    some_digit = λ e. absurd (ground (arith, c.counted, ap length e));
                  })
                  stop (λ e. absurd (not_hex e))))
      ]
    ]
