-- ===== src/Lexer/Number/Hex.antt =====
-- `scan_hex_number` returns hexadecimal integers and floats, up to the first byte that is in no word.
use Prim.Native.String.{String}
use coglet.Prelude.{
  ℕ, ◌+◌, ◌≢◌, Bytes, All, Bool, true, false, ◌||◌, [], ◌∷◌, ◌++◌, append-nil, ◌≡◌, refl, ap, ◌⊎◌,
  inl, inr, ◌==◌, ==_iff, Bool-cases, length, arith,
}
use coglet.Lexer.Bytes.{is_digit, is_alpha, is_word}
use coglet.Lexer.Cursor.{Lexer, deref, mark, peek, advance, skip_while, count_while, fail_to_here}
use coglet.Lexer.Motion.{Moved, Moved-trans, advance-Moved, skip_run-Ran}
use coglet.Lexer.Lexeme.{
  IsDigits, is_digit_of, RadixPrefix, prefixed, IsHexSignificand, hexadecimal_float,
}
use coglet.Lexer.Number.{
  is_word_or_point, skip_sign, scan_hex_exponent, scan_hex_tail, scan_hex_point, scan_hex_number,
}
use coglet.Lexer.Number.Malformed.{
  IsTail, IsBadNumber, hex_without_digits, hex_without_exponent, bad_hex_exponent, bad_hex_float,
  Scans, integer-Scans, float-Scans, fail_run-Scans,
}
use coglet.Lexer.Number.Decimal.{skip_digits-Ran, skip_sign-Signed, IsExponent-Moved}
use coglet.Lexer.Number.Prefixed.{length-zero, count_digits-Counted, prefix-Moved, fail_word-Scans}

is_word_or_point_nul : is_word_or_point 0 ≡ false
unfolding is_word_or_point is_word is_alpha is_digit
is_word_or_point_nul = refl

is_p : (c : ℕ) → (c == b'p' || c == b'P') ≡ true → ((c ≡ b'p') ⊎ (c ≡ b'P')) × (c ≢ 0)
is_p c h = (ground arith, ground arith)

-- What stands between the prefix `0x` and `lx`: `count` digits, with a point or without.
record Significand (lx0 : Lexer) (count : ℕ) (saw_point : Bool) (lx : Lexer) : Type 0 where
  whole : Bytes
  point : Bytes
  part : Bytes
  moved : Moved lx0 (b'0' ∷ peek (advance lx0) ∷ (whole ++ (point ++ part))) lx
  point_is :
      (saw_point ≡ true) × (point ≡ b'.' ∷ [])
      ⊎ ((saw_point ≡ false) × (point ≡ []) × (part ≡ []) × ((peek lx == b'.') ≡ false))
  whole_are : All (λ c. is_digit_of 16 c ≡ true) whole
  part_are : All (λ c. is_digit_of 16 c ≡ true) part
  counted : count ≡ length whole + length part
  stopped : is_digit_of 16 (peek lx) ≡ false

module _ {lx0 lx : Lexer} {count : ℕ} {saw_point : Bool} (p : RadixPrefix (peek (advance lx0)) 16)
    (s : Significand lx0 count saw_point lx) where
  significand-IsHexSignificand :
      count ≢ 0 → (h : IsHexSignificand (s.whole ++ (s.point ++ s.part))) × (h.point ≡ s.point)
  significand-IsHexSignificand some = (
    record {
      whole = s.whole;
      point = s.point;
      part = s.part;
      splits = refl;
      point_is = pointed s.point_is;
      whole_are = s.whole_are;
      part_are = s.part_are;
      some_digit = omega (arith, s.counted);
    },
    refl,
  )
    where
      pointed :
          (saw_point ≡ true) × (s.point ≡ b'.' ∷ [])
            ⊎ ((saw_point ≡ false) × (s.point ≡ []) × (s.part ≡ []) × ((peek lx == b'.') ≡ false))
          → (s.point ≡ b'.' ∷ []) ⊎ ((s.point ≡ []) × (s.part ≡ []))
      pointed (inl (e, f)) = inl f
      pointed (inr (e, f, g, no_point)) = inr (f, g)

  -- Without a point the digits are an integer's.
  significand-IsDigits :
      count ≢ 0 → saw_point ≡ false → IsDigits (is_digit_of 16) (s.whole ++ (s.point ++ s.part))
  significand-IsDigits some e = go s.point_is
    where
      go :
          (saw_point ≡ true) × (s.point ≡ b'.' ∷ [])
            ⊎ ((saw_point ≡ false) × (s.point ≡ []) × (s.part ≡ []) × ((peek lx == b'.') ≡ false))
          → IsDigits (is_digit_of 16) (s.whole ++ (s.point ++ s.part))
      go (inl (f, g)) = cc
      go (inr (f, g, h, no_point)) =
          rw (g, h, append-nil)
            (record {
              digits = s.whole_are;
              some_digit = λ n. absurd (some (omega (arith, s.counted, ap length n, ap length h)));
            })

  pointed-ne-nil : saw_point ≡ true → s.point ≢ []
  pointed-ne-nil e n = go s.point_is
    where
      go :
          (saw_point ≡ true) × (s.point ≡ b'.' ∷ [])
            ⊎ ((saw_point ≡ false) × (s.point ≡ []) × (s.part ≡ []) × ((peek lx == b'.') ≡ false))
          → ⊥
      go (inl (f, g)) = cc
      go (inr (f, g, h, no_point)) = cc

  plain-no_point : saw_point ≡ false → (peek lx == b'.') ≡ false
  plain-no_point e = go s.point_is
    where
      go :
          (saw_point ≡ true) × (s.point ≡ b'.' ∷ [])
            ⊎ ((saw_point ≡ false) × (s.point ≡ []) × (s.part ≡ []) × ((peek lx == b'.') ≡ false))
          → (peek lx == b'.') ≡ false
      go (inl (f, g)) = cc
      go (inr (f, g, h, no_point)) = no_point

  -- No digit between the prefix and the rest of the word.
  without_digits-IsBadNumber :
      (t rest : Bytes)
      → count ≡ 0
      → lx.current ≡ t ++ rest
      → IsTail is_word_or_point t rest
      → IsBadNumber ((b'0' ∷ peek (advance lx0) ∷ (s.whole ++ (s.point ++ s.part))) ++ t) rest
  unfolding peek
  without_digits-IsBadNumber t rest none e tail =
      let no_whole = length-zero s.whole (omega (arith, s.counted)) in
      let no_part = length-zero s.part (omega (arith, s.counted)) in
      hex_without_digits (peek (advance lx0)) s.point t p (point_of s.point_is)
        (rw (no_whole, no_part, append-nil) refl) (rw (← e) s.stopped) tail
    where
      point_of :
          (saw_point ≡ true) × (s.point ≡ b'.' ∷ [])
            ⊎ ((saw_point ≡ false) × (s.point ≡ []) × (s.part ≡ []) × ((peek lx == b'.') ≡ false))
          → (s.point ≡ b'.' ∷ []) ⊎ ((s.point ≡ []) × ((deref (t ++ rest) == b'.') ≡ false))
      point_of (inl (f, g)) = inl g
      point_of (inr (f, g, h, no_point)) = inr (g, rw (← e) no_point)

  scan_hex_exponent-Scans :
      count ≢ 0
      → (peek lx == b'p' || peek lx == b'P') ≡ true
      → Scans lx0 (scan_hex_exponent lx (mark lx0))
  unfolding scan_hex_exponent peek
  scan_hex_exponent-Scans some e =
      let letter = is_p (peek lx) e in
      let signed = skip_sign-Signed (advance lx) in
      let significand = (significand-IsHexSignificand some).0 in
      elim (Bool-cases (is_digit (peek (skip_sign (advance lx))))) [
        | inr none ↦ rw none (
            fail_word-Scans _ _
              (Moved-trans _ _ s.moved (Moved-trans _ _ (advance-Moved lx letter.1) signed.moved))
              (λ n. cc)
              (λ t rest at tail.
                bad_hex_exponent (peek (advance lx0)) (peek lx) _ signed.sign t significand p
                  letter.0
                  (record {
                    sign_is = signed.sign_is;
                    longest = rw (← at) signed.longest;
                    no_digit = rw (← at) none;
                  })
                  refl tail))
        | inl digit ↦
            let (text, m, x, _) = IsExponent-Moved b'p' b'P' letter.0 letter.1 digit in
            let moved = Moved-trans _ text s.moved m in
            let stopped = (skip_digits-Ran (skip_sign (advance lx))).stopped in
            elim (Bool-cases (is_word (peek (skip_while is_digit (skip_sign (advance lx)))))) [
              | inl bad ↦
                  rw (digit, bad)
                    (fail_word-Scans _ _ moved (λ n. cc)
                      (λ t rest at tail.
                        bad_hex_float (peek (advance lx0)) _ text t significand p x refl
                          (rw (← at) stopped) (rw (← at) bad) tail))
              | inr stop ↦
                  rw (digit, stop)
                    (float-Scans _ moved (
                      hexadecimal_float (peek (advance lx0)) (s.whole ++ (s.point ++ s.part)) text p
                        significand x refl stop))
            ]
      ]

  without_exponent-Scans :
      (message : String)
      → count ≢ 0
      → (peek lx == b'p' || peek lx == b'P') ≡ false
      → (s.point ≢ []) ⊎ (is_word (peek lx) ≡ true)
      → Scans lx0 (fail_to_here (skip_while is_word lx) (mark lx0) message)
  unfolding peek
  without_exponent-Scans message some none why =
      let (h, same) = significand-IsHexSignificand some in
      fail_word-Scans _ message s.moved (λ n. cc)
        (λ t rest at tail.
          hex_without_exponent (peek (advance lx0)) _ t h p refl (rw (← at) s.stopped)
            (rw (← at) none) (rw (same, ← at) why) tail)

  scan_hex_tail-Scans : Scans lx0 (scan_hex_tail count saw_point lx (mark lx0))
  unfolding scan_hex_tail peek
  scan_hex_tail-Scans = elim (Bool-cases (count == 0)) [
    | inl none ↦
        let tail =
          skip_run-Ran is_word_or_point is_word_or_point_nul (length lx.current) lx (omega arith) in
        rw none (
          fail_run-Scans _ _ s.moved (λ n. cc) tail
            (λ t. without_digits-IsBadNumber t _ (ground arith)))
    | inr some ↦
        let some' : count ≢ 0 = ground arith in
        elim (Bool-cases (peek lx == b'p' || peek lx == b'P')) [
          | inl e ↦ rw (some, e) (scan_hex_exponent-Scans some' e)
          | inr e ↦ elim (Bool-cases saw_point) [
            | inl pointed ↦
                rw (some, e, pointed)
                  (without_exponent-Scans _ some' e (inl (pointed-ne-nil pointed)))
            | inr plain ↦ elim (Bool-cases (is_word (peek lx))) [
              | inl bad ↦ rw (some, e, plain, bad) (without_exponent-Scans _ some' e (inr bad))
              | inr stop ↦
                  let no_point = plain-no_point plain in
                  rw (some, e, plain, stop)
                    (integer-Scans _ s.moved (
                      prefixed (peek (advance lx0)) 16 _ p refl (significand-IsDigits some' plain)
                        stop (λ hex. ground arith)))
            ]
          ]
        ]
  ]

-- From `0x` on, `scan_hex_number` returns an integer or a float, or the error for what is neither.
pub scan_hex_number-Scans :
    (lx : Lexer)
    → peek lx ≡ b'0'
    → RadixPrefix (peek (advance lx)) 16
    → Scans lx (scan_hex_number (advance lx) (mark lx))
unfolding scan_hex_number scan_hex_point
scan_hex_number-Scans lx zero_first p =
    let opened = advance (advance lx) in
    let whole = count_while (is_digit_of 16) 0 opened in
    let w = count_digits-Counted 16 0 opened in
    let moved : Moved lx (b'0' ∷ peek (advance lx) ∷ w.ran.text) whole.1 =
      rw (← zero_first) (Moved-trans _ w.ran.text (prefix-Moved lx zero_first p) w.ran.moved) in
    elim (Bool-cases (peek whole.1 == b'.')) [
      | inr none ↦ rw none (
          scan_hex_tail-Scans p (record {
            whole = w.ran.text;
            point = [];
            part = [];
            moved = rw append-nil moved;
            point_is = inr (refl, refl, refl, none);
            whole_are = w.ran.passed;
            part_are = tt;
            counted = omega (arith, w.counted);
            stopped = w.ran.stopped;
          }))
      | inl point ↦
          let at_point : peek whole.1 ≡ b'.' = (==_iff (peek whole.1) b'.').0 point in
          let a = count_digits-Counted 16 whole.0 (advance whole.1) in
          rw point (
            scan_hex_tail-Scans p (record {
              whole = w.ran.text;
              point = b'.' ∷ [];
              part = a.ran.text;
              moved = Moved-trans _ (b'.' ∷ a.ran.text) moved (
                  rw (← at_point) (
                    Moved-trans (peek whole.1 ∷ []) a.ran.text (advance-Moved whole.1 (omega arith))
                      a.ran.moved));
              point_is = inl (refl, refl);
              whole_are = w.ran.passed;
              part_are = a.ran.passed;
              counted = omega (arith, w.counted, a.counted);
              stopped = a.ran.stopped;
            }))
    ]
