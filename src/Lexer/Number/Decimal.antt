-- ===== src/Lexer/Number/Decimal.antt =====
-- `scan_decimal` returns decimal integers and floats, up to the last digit.
use coglet.Prelude.{
  ℕ, ◌≢◌, Bytes, Bool, true, false, not, ◌&&◌, ◌||◌, [], ◌∷◌, ◌++◌, append_assoc, append-nil,
  append-ne-nil, ◌≡◌, refl, ap, ◌∙◌, ◌⊎◌, inl, inr, ◌==◌, if◌then◌else◌, Bool-cases, and_true,
  ==_iff, length, subst, arith,
}
use coglet.Lexer.Token.{TokenType}
use coglet.Lexer.Bytes.{is_digit}
use coglet.Lexer.Cursor.{
  Lexer, is_at_end, mark, peek, peek_next, advance, skip_while, emit_to_here, fail_to_here,
}
use coglet.Lexer.Motion.{
  Moved, Moved-refl, Moved-trans, advance-Moved, peek-advance, Ran, Ran-some, skip_run-Ran,
  passed-ne-zero,
}
use coglet.Lexer.Lexeme.{
  IsDigits, decimal, IsSign, unsigned, plus, minus, IsExponent, IsFraction, Optional, decimal_float,
  at_fraction, at_prefix,
}
use coglet.Lexer.Number.{skip_sign, scan_exponent, scan_decimal}
use coglet.Lexer.Number.Malformed.{bad_exponent, Scans, integer-Scans, float-Scans, fail-Scans}

pub is_digit_nul : is_digit 0 ≡ false
unfolding is_digit
is_digit_nul = refl

pub skip_digits-Ran : (lx : Lexer) → Ran is_digit lx (skip_while is_digit lx)
skip_digits-Ran lx = skip_run-Ran is_digit is_digit_nul (length lx.current) lx (omega arith)

pub record Signed (lx lx' : Lexer) : Type 0 where
  pub sign : Bytes
  pub moved : Moved lx sign lx'
  pub sign_is : IsSign sign
  pub longest : (sign ≢ []) ⊎ ((peek lx' == b'+' || peek lx' == b'-') ≡ false)

pub skip_sign-Signed : (lx : Lexer) → Signed lx (skip_sign lx)
unfolding skip_sign
skip_sign-Signed lx = elim (Bool-cases (peek lx == b'+')) [
  | inl p ↦ rw p (record {
    sign = peek lx ∷ [];
    moved = advance-Moved lx (ground arith);
    sign_is = let e : peek lx ≡ b'+' = ground arith in rw e plus;
    longest = inl (λ n. cc);
  })
  | inr p ↦ elim (Bool-cases (peek lx == b'-')) [
    | inl q ↦
        rw (p, q)
          (record {
            sign = peek lx ∷ [];
            moved = advance-Moved lx (ground arith);
            sign_is = let e : peek lx ≡ b'-' = ground arith in rw e minus;
            longest = inl (λ n. cc);
          })
    | inr q ↦
        rw (p, q)
          (record {
            sign = [];
            moved = Moved-refl lx;
            sign_is = unsigned;
            longest = inr (rw (p, q));
          })
  ]
]

-- The letter of an exponent, a sign and digits.
pub IsExponent-Moved :
    (lower upper : ℕ) {lx : Lexer}
    → (peek lx ≡ lower) ⊎ (peek lx ≡ upper)
    → peek lx ≢ 0
    → is_digit (peek (skip_sign (advance lx))) ≡ true
    → (text : Bytes) × Moved lx text (skip_while is_digit (skip_sign (advance lx)))
      × IsExponent lower upper text
      × (text ≢ [])
IsExponent-Moved lower upper {lx} letter nz digit =
    let signed = skip_sign-Signed (advance lx) in
    let digits = skip_digits-Ran (skip_sign (advance lx)) in
    (
      peek lx ∷ (signed.sign ++ digits.text),
      Moved-trans (peek lx ∷ []) _ (advance-Moved lx nz)
          (Moved-trans signed.sign digits.text signed.moved digits.moved),
      record {
        letter = peek lx;
        sign = signed.sign;
        digits = digits.text;
        splits = refl;
        letter_is = letter;
        sign_is = signed.sign_is;
        digits_are = record { digits = digits.passed; some_digit = Ran-some is_digit digits digit };
      },
      λ e. cc,
    )

is_e : (c : ℕ) → (c == b'e' || c == b'E') ≡ true → ((c ≡ b'e') ⊎ (c ≡ b'E')) × (c ≢ 0)
is_e c h = (ground arith, ground arith)

-- Whether a fraction was read, and that none stands here where none was.
abbrev FractionRead : Bool → Bytes → Lexer → Type 0
FractionRead is_float fraction lx =
    (is_float ≡ true) × IsFraction fraction
    ⊎ ((is_float ≡ false) × (fraction ≡ []) × (at_fraction lx.current ≡ false))

module _ {lx0 lx : Lexer} (no_prefix : at_prefix lx0.current ≡ false) (whole fraction : Bytes)
    (w : IsDigits is_digit whole) (moved : Moved lx0 (whole ++ fraction) lx) where
  exponent_absent-Scans :
      (is_float : Bool)
      → FractionRead is_float fraction lx
      → is_digit (peek lx) ≡ false
      → (peek lx == b'e' || peek lx == b'E') ≡ false
      → Scans lx0 (
          emit_to_here lx
            (if is_float then TokenType.tok_number_float else TokenType.tok_number_int)
            (mark lx0))
  unfolding peek
  exponent_absent-Scans is_float (inl (e, f)) stop none = rw e (
      float-Scans (whole ++ fraction) moved (
        decimal_float whole fraction [] w (inr f) (inl refl) (inl (λ n. cc f.splits))
          (rw append-nil) stop (inr none)))
  exponent_absent-Scans is_float (inr (e, f, no_fraction)) stop none = rw e (
      integer-Scans (whole ++ fraction) moved (
        decimal (rw (f, append-nil) w) stop no_fraction none
          (subst (λ s. at_prefix s ≡ false) moved.splits no_prefix)))

  exponent-Scans :
      Optional IsFraction fraction
      → (peek lx == b'e' || peek lx == b'E') ≡ true
      → Scans lx0 (
          if not (is_digit (peek (skip_sign (advance lx))))
          then fail_to_here (skip_sign (advance lx)) (mark lx0) "expected digits after exponent"
          else emit_to_here
              (skip_while is_digit (skip_sign (advance lx)))
              TokenType.tok_number_float
              (mark lx0))
  unfolding peek
  exponent-Scans f e = elim (Bool-cases (is_digit (peek (skip_sign (advance lx))))) [
    | inl digit ↦
        let letter = is_e (peek lx) e in
        let (text, m, x, some) = IsExponent-Moved b'e' b'E' letter.0 letter.1 digit in
        rw digit (
          float-Scans ((whole ++ fraction) ++ text) (Moved-trans (whole ++ fraction) text moved m) (
            decimal_float whole fraction text w f (inr x) (inr some)
              (append_assoc whole fraction text)
              ((skip_digits-Ran (skip_sign (advance lx))).stopped) (inl some)))
    | inr none ↦
        let letter = is_e (peek lx) e in
        let signed = skip_sign-Signed (advance lx) in
        rw none (
          fail-Scans ((whole ++ fraction) ++ (peek lx ∷ signed.sign)) _
            (Moved-trans (whole ++ fraction) _ moved
              (Moved-trans (peek lx ∷ []) _ (advance-Moved lx letter.1) signed.moved))
            (append-ne-nil _ _ (append-ne-nil _ _ w.some_digit))
            (bad_exponent whole fraction signed.sign (peek lx) w f letter.0
              (record { sign_is = signed.sign_is; longest = signed.longest; no_digit = none })
              refl))
  ]

  scan_exponent-Scans :
      (is_float : Bool)
      → FractionRead is_float fraction lx
      → is_digit (peek lx) ≡ false
      → Scans lx0 (scan_exponent is_float lx (mark lx0))
  unfolding scan_exponent
  scan_exponent-Scans is_float f stop = elim (Bool-cases (peek lx == b'e' || peek lx == b'E')) [
    | inl e ↦ rw e (exponent-Scans (fraction_of f) e)
    | inr none ↦ rw none (exponent_absent-Scans is_float f stop none)
  ]
    where
      fraction_of : FractionRead is_float fraction lx → Optional IsFraction fraction
      fraction_of (inl (e, x)) = inr x
      fraction_of (inr (e, x, y)) = inl x

-- The digits that start a number: its first byte, and those behind it.
first-IsDigits :
    (lx : Lexer)
    → is_digit (peek lx) ≡ true
    → (text : Bytes) × Moved lx text (skip_while is_digit (advance lx)) × IsDigits is_digit text
first-IsDigits lx h =
    let more = skip_digits-Ran (advance lx) in
    (
      peek lx ∷ more.text,
      Moved-trans (peek lx ∷ []) more.text
          (advance-Moved lx (passed-ne-zero is_digit is_digit_nul (peek lx) h)) more.moved,
      record { digits = (h, more.passed); some_digit = λ e. cc },
    )

-- At a point with a digit behind it.
IsFraction-Moved :
    (lx : Lexer)
    → (peek lx == b'.' && is_digit (peek_next lx)) ≡ true
    → (text : Bytes) × Moved lx text (skip_while is_digit (advance lx)) × IsFraction text
IsFraction-Moved lx h =
    let at_point : peek lx ≡ b'.' = (==_iff (peek lx) b'.').0 (and_true _ _ h).0 in
    let nz : peek lx ≢ 0 = omega arith in
    let digits = skip_digits-Ran (advance lx) in
    (
      peek lx ∷ digits.text,
      Moved-trans (peek lx ∷ []) digits.text (advance-Moved lx nz) digits.moved,
      record {
        digits = digits.text;
        splits = ap (λ c. c ∷ digits.text) at_point;
        digits_are = record {
          digits = digits.passed;
          some_digit =
              Ran-some is_digit digits (ap is_digit (peek-advance lx nz) ∙ (and_true _ _ h).1);
        };
      },
    )

no_fraction-at_fraction :
    (lx : Lexer)
    → (peek lx == b'.' && is_digit (peek_next lx)) ≡ false
    → at_fraction lx.current ≡ false
unfolding peek peek_next is_at_end
no_fraction-at_fraction lx h = ground arith

module _ {lx0 : Lexer} (no_prefix : at_prefix lx0.current ≡ false) (whole : Bytes)
    (w : IsDigits is_digit whole) where
  scan_fraction-Scans :
      (lx : Lexer)
      → Moved lx0 whole lx
      → is_digit (peek lx) ≡ false
      → Scans lx0 (
          if peek lx == b'.' && is_digit (peek_next lx)
          then scan_exponent true (skip_while is_digit (advance lx)) (mark lx0)
          else scan_exponent false lx (mark lx0))
  scan_fraction-Scans lx m stop = elim (Bool-cases (peek lx == b'.' && is_digit (peek_next lx))) [
    | inl point ↦
        let (text, n, f) = IsFraction-Moved lx point in
        rw point (
          scan_exponent-Scans no_prefix whole text w (Moved-trans whole text m n) true
            (inl (refl, f)) (skip_digits-Ran (advance lx)).stopped)
    | inr none ↦ rw none (
        scan_exponent-Scans no_prefix whole [] w (rw append-nil m) false
          (inr (refl, refl, no_fraction-at_fraction lx none)) stop)
  ]

-- From a digit on, and not at a radix prefix, `scan_decimal` returns an integer or a float up to where
-- no fraction and no exponent goes on with it, or the error for an exponent with no digit.
pub scan_decimal-Scans :
    (lx : Lexer)
    → at_prefix lx.current ≡ false
    → is_digit (peek lx) ≡ true
    → Scans lx (scan_decimal (advance lx) (mark lx))
unfolding scan_decimal
scan_decimal-Scans lx no_prefix h =
    let (text, m, w) = first-IsDigits lx h in
    scan_fraction-Scans no_prefix text w _ m (skip_digits-Ran (advance lx)).stopped
